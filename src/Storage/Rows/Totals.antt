-- ===== src/Storage/Rows/Totals.antt =====
-- The sum of a measure of the rows, and what an update of one row does to it.
use orientation_enrollment_p.Base.{
  ℕ, Bool, true, ◌≡◌, inl, inr, ◌+◌, ◌≤◌, arith, some, find, count, List, [], ◌∷◌, Bool-cases,
}
use orientation_enrollment_p.Storage.Db.{update_where}
use orientation_enrollment_p.Storage.Rows.Keys.{count-narrower, update_where-none}

module _ {A : Type 0} (measure : A → ℕ) where
  abbrev pub total : List A → ℕ
  total [] = 0
  total (r ∷ rows) = measure r + total rows

  -- The one row with a key is changed: the sum loses its old measure and gains its new one.
  pub total-update_where_one :
      (key test : A → Bool) (change : A → A) (rows : List A) {x : A}
      → ((r : A) → test r ≡ true → key r ≡ true)
      → count key rows ≤ 1
      → find key rows ≡ some x
      → test x ≡ true
      → total (update_where test change rows) + measure x ≡ total rows + measure (change x)
  unfolding update_where
  total-update_where_one key test change [] narrower one found passes = absurd (ground arith)
  total-update_where_one key test change (r ∷ rows) {x} narrower one found passes =
      elim (Bool-cases (key r)) [
        | inl e ↦
            let none_left : count key rows ≡ 0 = ground arith in
            let same =
              update_where-none test change rows
                (count-narrower key test rows narrower none_left) in
            let here : r ≡ x = ground arith in ground arith
        | inr e ↦
            let rest =
              total-update_where_one key test change rows {x = x} narrower (ground arith)
                (ground arith) passes in
            ground (arith, narrower r)
      ]
