-- ===== src/Storage/Rows.antt =====
-- Laws of `update_where`, the rows that an UPDATE leaves.
pub mod Keys
pub mod Totals
use mathlib.Core.Option
use orientation_enrollment_p.Base.{
  ℕ, zero, suc, Bool, true, false, ◌≡◌, refl, ap, ◌≢◌, inl, inr, ◌+◌, ◌<◌, ◌≤◌, arith, Option, none,
  some, find, count, All, List, [], ◌∷◌, ◌==◌, if◌then◌else◌, Bool-cases,
}
use orientation_enrollment_p.Storage.Db.{update_where}

module _ {A : Type 0} where
  -- A property of all rows is kept if the change keeps it where the test passes.
  pub All-update_where {κ} :
      (P : A → Type κ) (test : A → Bool) (change : A → A) (rows : List A)
      → ((r : A) → P r → test r ≡ true → P (change r))
      → All P rows
      → All P (update_where test change rows)
  unfolding update_where
  All-update_where P test change [] keep h = tt
  All-update_where P test change (r ∷ rows) keep h = elim (Bool-cases (test r)) [
    | inl e ↦ rw e (keep r h.0 e, All-update_where P test change rows keep h.1)
    | inr e ↦ rw e (h.0, All-update_where P test change rows keep h.1)
  ]

  -- After the change no row passes the test any more, if the changed rows do not.
  pub count-update_where_self :
      (test : A → Bool) (change : A → A) (rows : List A)
      → ((r : A) → test r ≡ true → test (change r) ≡ false)
      → count test (update_where test change rows) ≡ 0
  unfolding update_where
  count-update_where_self test change [] gone = refl
  count-update_where_self test change (r ∷ rows) gone = elim (Bool-cases (test r)) [
    | inl e ↦ rw (e, gone r e) (omega (arith, count-update_where_self test change rows gone))
    | inr e ↦ rw (e, e) (omega (arith, count-update_where_self test change rows gone))
  ]

  -- A row found by a test that the change does not affect is found changed or unchanged.
  pub find-update_where :
      (key test : A → Bool) (change : A → A) (rows : List A)
      → ((r : A) → key (change r) ≡ key r)
      → find key (update_where test change rows)
        ≡ Option.map (λ r. if test r then change r else r) (find key rows)
  unfolding update_where
  find-update_where key test change [] same = refl
  find-update_where key test change (r ∷ rows) same =
      ground (arith, same r, find-update_where key test change rows same)
