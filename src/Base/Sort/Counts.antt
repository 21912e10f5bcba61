-- ===== src/Base/Sort/Counts.antt =====
-- How many rows pass a test is what ORDER BY keeps and what WHERE and LIMIT do not raise.
use mathlib.Core.Bool.{Bool, true, false, ◌&&◌, ◌||◌, not}
use mathlib.Core.List.{List, [], ◌∷◌}
use mathlib.Core.Logic.{inl, inr}
use mathlib.Core.Path.{◌≡◌, refl}
use Prim.Native.Nat.{ℕ, zero, suc, ◌+◌, ◌≤◌}
use native.Mathlib.Omega.{arith}
use orientation_enrollment_p.Base.Tests.{if◌then◌else◌, ltb, Bool-cases}
use orientation_enrollment_p.Base.Lists.{count, keep, take, length, All}
use orientation_enrollment_p.Base.Sort.{insert_row, order_by}

module _ {ℓ} {A : Type ℓ} where
  count-insert_row :
      (le : A → A → Bool) (p : A → Bool) (x : A) (ys : List A)
      → count p (insert_row le x ys) ≡ count p (x ∷ ys)
  unfolding insert_row
  count-insert_row le p x [] = refl
  count-insert_row le p x (y ∷ ys) = ground (arith, count-insert_row le p x ys)

  pub count-order_by :
      (le : A → A → Bool) (p : A → Bool) (xs : List A) → count p (order_by le xs) ≡ count p xs
  unfolding order_by
  count-order_by le p [] = refl
  count-order_by le p (x ∷ xs) =
      omega (arith, count-insert_row le p x (order_by le xs), count-order_by le p xs)

  length-insert_row :
      (le : A → A → Bool) (x : A) (ys : List A) → length (insert_row le x ys) ≡ suc (length ys)
  unfolding insert_row
  length-insert_row le x [] = refl
  length-insert_row le x (y ∷ ys) = ground (arith, length-insert_row le x ys)

  pub length-order_by : (le : A → A → Bool) (xs : List A) → length (order_by le xs) ≡ length xs
  unfolding order_by
  length-order_by le [] = refl
  length-order_by le (x ∷ xs) =
      omega (arith, length-insert_row le x (order_by le xs), length-order_by le xs)

  All-insert_row {κ} :
      (le : A → A → Bool) (P : A → Type κ) (x : A) (ys : List A)
      → P x
      → All P ys
      → All P (insert_row le x ys)
  unfolding insert_row
  All-insert_row le P x [] h hs = (h, tt)
  All-insert_row le P x (y ∷ ys) h hs = elim (Bool-cases (le x y)) [
    | inl e ↦ rw e (h, hs)
    | inr e ↦ rw e (hs.0, All-insert_row le P x ys h hs.1)
  ]

  pub All-order_by {κ} :
      (le : A → A → Bool) (P : A → Type κ) (xs : List A) → All P xs → All P (order_by le xs)
  unfolding order_by
  All-order_by le P [] hs = tt
  All-order_by le P (x ∷ xs) hs =
      All-insert_row le P x (order_by le xs) hs.0 (All-order_by le P xs hs.1)

  pub All-keep : (p : A → Bool) (xs : List A) → All (λ x. p x ≡ true) (keep p xs)
  All-keep p [] = tt
  All-keep p (x ∷ xs) = elim (Bool-cases (p x)) [
    | inl e ↦ rw e (e, All-keep p xs)
    | inr e ↦ rw e (All-keep p xs)
  ]

  pub All-take {κ} : (P : A → Type κ) (n : ℕ) (xs : List A) → All P xs → All P (take n xs)
  All-take P n [] hs = tt
  All-take P zero (x ∷ xs) hs = tt
  All-take P (suc n) (x ∷ xs) hs = (hs.0, All-take P n xs hs.1)

  pub count-keep : (p q : A → Bool) (xs : List A) → count p (keep q xs) ≤ count p xs
  count-keep p q [] = omega arith
  count-keep p q (x ∷ xs) = ground (arith, count-keep p q xs)

  pub count-take : (p : A → Bool) (n : ℕ) (xs : List A) → count p (take n xs) ≤ count p xs
  count-take p n [] = omega arith
  count-take p zero (x ∷ xs) = omega arith
  count-take p (suc n) (x ∷ xs) = omega (arith, count-take p n xs)

  pub length-keep : (p : A → Bool) (xs : List A) → length (keep p xs) ≡ count p xs
  length-keep p [] = refl
  length-keep p (x ∷ xs) = ground (arith, length-keep p xs)

  pub length-take_lem :
      (n : ℕ) (xs : List A) → length (take n xs) ≡ (if ltb n (length xs) then n else length xs)
  length-take_lem n [] = ground arith
  length-take_lem zero (x ∷ xs) = ground arith
  length-take_lem (suc n) (x ∷ xs) = ground (arith, length-take_lem n xs)

  pub count-none : (xs : List A) → count (λ x. false) xs ≡ 0
  count-none [] = refl
  count-none (x ∷ xs) = omega (arith, count-none xs)

  -- Tests that no row passes together.
  pub count-disjoint :
      (p q : A → Bool) (xs : List A)
      → count (λ x. p x && q x) xs ≡ 0
      → count (λ x. p x || q x) xs ≡ count p xs + count q xs
  count-disjoint p q [] h = refl
  count-disjoint p q (x ∷ xs) h = ground (arith, count-disjoint p q xs)

  pub count-split :
      (p q : A → Bool) (xs : List A)
      → count (λ x. p x && q x) xs + count (λ x. p x && not (q x)) xs ≡ count p xs
  count-split p q [] = refl
  count-split p q (x ∷ xs) = ground (arith, count-split p q xs)

  pub count-either :
      (p q r : A → Bool) (xs : List A)
      → count (λ x. (p x || q x) && r x) xs
        ≤ count (λ x. p x && r x) xs + count (λ x. q x && r x) xs
  count-either p q r [] = omega arith
  count-either p q r (x ∷ xs) = ground (arith, count-either p q r xs)
