-- ===== src/Storage/Rows/Keys.antt =====
-- Rows found by a key that no two rows share, and what an update of one such row does to a count.
use orientation_enrollment_p.Base.{
  ℕ, Bool, true, false, ◌≡◌, refl, ◌≢◌, inl, inr, ◌+◌, ◌≤◌, arith, some, find, count, List, [], ◌∷◌,
  if◌then◌else◌, Bool-cases,
}
use orientation_enrollment_p.Storage.Db.{update_where}

-- A row's share of a count.
abbrev pub bit : Bool → ℕ
bit b = if b then 1 else 0

module _ {A : Type 0} where
  -- Where no row passes the first test, none passes a narrower one, and the update changes nothing.
  pub count-narrower :
      (key test : A → Bool) (rows : List A)
      → ((r : A) → test r ≡ true → key r ≡ true)
      → count key rows ≡ 0
      → count test rows ≡ 0
  count-narrower key test [] narrower h = refl
  count-narrower key test (r ∷ rows) narrower h =
      ground (arith, narrower r, count-narrower key test rows narrower)

  pub update_where-none :
      (test : A → Bool) (change : A → A) (rows : List A)
      → count test rows ≡ 0
      → update_where test change rows ≡ rows
  unfolding update_where
  update_where-none test change [] h = refl
  update_where-none test change (r ∷ rows) h = ground (arith, update_where-none test change rows)

  -- What is found by a test passes it.
  pub find-passes : (key : A → Bool) (rows : List A) {x : A} → find key rows ≡ some x → key x ≡ true
  find-passes key [] h = absurd (ground arith)
  find-passes key (r ∷ rows) {x} h = elim (Bool-cases (key r)) [
    | inl e ↦ ground arith
    | inr e ↦ ground (arith, find-passes key rows {x = x})
  ]

  -- The one row with a key is changed: a count loses its old share and gains its new one.
  pub count-update_where_one :
      (key test p : A → Bool) (change : A → A) (rows : List A) {x : A}
      → ((r : A) → test r ≡ true → key r ≡ true)
      → count key rows ≤ 1
      → find key rows ≡ some x
      → test x ≡ true
      → count p (update_where test change rows) + bit (p x) ≡ count p rows + bit (p (change x))
  unfolding update_where
  count-update_where_one key test p change [] narrower one found passes = absurd (ground arith)
  count-update_where_one key test p change (r ∷ rows) {x} narrower one found passes =
      elim (Bool-cases (key r)) [
        | inl e ↦
            let none_left : count key rows ≡ 0 = ground arith in
            let same =
              update_where-none test change rows
                (count-narrower key test rows narrower none_left) in
            let here : r ≡ x = ground arith in ground arith
        | inr e ↦
            let rest =
              count-update_where_one key test p change rows {x = x} narrower (ground arith)
                (ground arith) passes in
            ground (arith, narrower r)
      ]

  -- A count that no changed row takes part in differently.
  pub count-update_where_same :
      (test p : A → Bool) (change : A → A) (rows : List A)
      → ((r : A) → p (change r) ≡ p r)
      → count p (update_where test change rows) ≡ count p rows
  unfolding update_where
  count-update_where_same test p change [] same = refl
  count-update_where_same test p change (r ∷ rows) same =
      ground (arith, same r, count-update_where_same test p change rows same)

  -- Where some row passes a narrower test, the row found by the key does.
  pub find-narrower :
      (key test : A → Bool) (rows : List A) {x : A}
      → ((r : A) → test r ≡ true → key r ≡ true)
      → count key rows ≤ 1
      → find key rows ≡ some x
      → count test rows ≢ 0
      → test x ≡ true
  find-narrower key test [] narrower one found some_pass = absurd (ground arith)
  find-narrower key test (r ∷ rows) {x} narrower one found some_pass = elim (Bool-cases (key r)) [
    | inl e ↦ let gone = count-narrower key test rows narrower (ground arith) in ground arith
    | inr e ↦
        find-narrower key test rows {x = x} narrower (ground arith) (ground arith)
          (ground (arith, narrower r))
  ]

  pub counted_found :
      (test key : A → Bool) (rows : List A) {x : A}
      → find test rows ≡ some x
      → key x ≡ true
      → 1 ≤ count key rows
  counted_found test key [] found passes = absurd (ground arith)
  counted_found test key (r ∷ rows) {x} found passes = elim (Bool-cases (test r)) [
    | inl e ↦ let here : r ≡ x = ground arith in ground arith
    | inr e ↦ ground (arith, counted_found test key rows {x = x})
  ]

  -- A row found by any test is found by a key that no two rows share.
  pub find-by_key :
      (test key : A → Bool) (rows : List A) {x : A}
      → find test rows ≡ some x
      → key x ≡ true
      → count key rows ≤ 1
      → find key rows ≡ some x
  find-by_key test key [] found passes one = absurd (ground arith)
  find-by_key test key (r ∷ rows) {x} found passes one = elim (Bool-cases (test r)) [
    | inl e ↦ let here : r ≡ x = ground arith in ground arith
    | inr e ↦
        let rest : find test rows ≡ some x = ground arith in
        let at_least = counted_found test key rows rest passes in
        let not_here : key r ≡ false = ground arith in
        let later = find-by_key test key rows rest passes (ground arith) in ground arith
  ]
