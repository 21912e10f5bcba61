-- ===== src/Base/Sort/First.antt =====
-- The first row of an ordered result, and the rows that a filter kept.
use mathlib.Core.Path.{◌≡◌, refl, sym, ◌∙◌, ap, subst}
use mathlib.Core.Logic.{◌⊎◌, inl, inr, ◌≢◌}
use mathlib.Core.Bool.{Bool, true, false}
use mathlib.Core.Option.{some}
use mathlib.Core.List.{List, [], ◌∷◌, Memᴰ}
use Prim.Native.Nat.{ℕ, ◌≤◌}
use native.Mathlib.Omega.{arith}
use orientation_enrollment_p.Base.Tests.{if◌then◌else◌, Bool-cases}
use orientation_enrollment_p.Base.Lists.{count, keep, find, All, first_of}
use orientation_enrollment_p.Base.Sort.{insert_row, order_by}

module _ {A : Type 0} where
  kept :
      (p : A → Bool) (y : A) (rows ys : List A) {x : A}
      → p y ≡ true
      → (Memᴰ x rows → Memᴰ x ys × (p x ≡ true))
      → Memᴰ x (y ∷ rows)
      → Memᴰ x (y ∷ ys) × (p x ≡ true)
  kept p y rows ys e later (Memᴰ.head same) = (Memᴰ.head same, ap p same ∙ e)
  kept p y rows ys e later (Memᴰ.tail m) = let (here, passes) = later m in (Memᴰ.tail here, passes)

  pub keep-Mem :
      (p : A → Bool) (xs : List A) {x : A} → Memᴰ x (keep p xs) → Memᴰ x xs × (p x ≡ true)
  keep-Mem p [] m = elim m [ ]
  keep-Mem p (y ∷ ys) {x} m =
      let rows = λ (b : Bool). if b then y ∷ keep p ys else keep p ys in
      elim (Bool-cases (p y)) [
        | inl e ↦ kept p y (keep p ys) ys e (keep-Mem p ys) (subst (λ b. Memᴰ x (rows b)) e m)
        | inr e ↦
            let (here, passes) = keep-Mem p ys (subst (λ b. Memᴰ x (rows b)) e m) in
            (Memᴰ.tail here, passes)
      ]

  pub Mem-counted : (p : A → Bool) (xs : List A) {x : A} → Memᴰ x xs → p x ≡ true → 1 ≤ count p xs
  Mem-counted p [] m h = elim m [ ]
  Mem-counted p (y ∷ ys) (Memᴰ.head same) h = ground (arith, ap p same)
  Mem-counted p (y ∷ ys) (Memᴰ.tail later) h = omega (arith, Mem-counted p ys later h)

  -- A row is found by a test that no other row passes.
  pub find-Mem :
      (p : A → Bool) (xs : List A) {x : A}
      → Memᴰ x xs
      → p x ≡ true
      → count p xs ≤ 1
      → find p xs ≡ some x
  find-Mem p [] m h one = elim m [ ]
  find-Mem p (y ∷ ys) (Memᴰ.head same) h one = ground (arith, ap p same)
  find-Mem p (y ∷ ys) (Memᴰ.tail later) h one =
      let counted = Mem-counted p ys later h in let rest = find-Mem p ys later h in ground arith

module _ {A : Type 0} (le : A → A → Bool) where
  -- What comes first after an insertion.
  first-insert_row :
      (x : A) (ys : List A)
      → ((first_of (insert_row le x ys) ≡ some x) × (ys ≡ []))
        ⊎ ((y : A) × (first_of ys ≡ some y)
            × (first_of (insert_row le x ys) ≡ some (if le x y then x else y)))
  unfolding insert_row
  first-insert_row x [] = inl (refl, refl)
  first-insert_row x (y ∷ ys) = inr (y, refl, ground arith)

  insert_row-some : (x : A) (ys : List A) → insert_row le x ys ≢ []
  unfolding insert_row
  insert_row-some x [] h = ground arith
  insert_row-some x (y ∷ ys) h = ground arith

  order_by-none : (xs : List A) → order_by le xs ≡ [] → xs ≡ []
  unfolding order_by
  order_by-none [] h = refl
  order_by-none (x ∷ xs) h = absurd (insert_row-some x (order_by le xs) h)

  -- The first row is one of the rows, and is least by any measure that the order respects.
  module _ (measure : A → ℕ) (below : (x y : A) → le x y ≡ true → measure x ≤ measure y)
      (above : (x y : A) → le x y ≡ false → measure y ≤ measure x) where
    All-weaken :
        (n m : ℕ) (xs : List A) → n ≤ m → All (λ x. m ≤ measure x) xs → All (λ x. n ≤ measure x) xs
    All-weaken n m [] h all = tt
    All-weaken n m (x ∷ xs) h all = (omega (arith, all.0), All-weaken n m xs h all.1)

    pub order_by-first :
        (xs : List A) {f : A}
        → first_of (order_by le xs) ≡ some f
        → Memᴰ f xs × All (λ x. measure f ≤ measure x) xs
    unfolding order_by
    order_by-first [] h = absurd (ground arith)
    order_by-first (x ∷ xs) {f} h = elim (first-insert_row x (order_by le xs)) [
      | inl (e, empty) ↦
          let same : x ≡ f = ground arith in
          let gone = order_by-none xs empty in
          rw gone (Memᴰ.head (sym same), (rw same (omega arith), tt))
      | inr (y, first, e) ↦
          let (here, least) = order_by-first xs {f = y} first in
          elim (Bool-cases (le x y)) [
            | inl before ↦
                let same : x ≡ f = ground arith in
                (
                  Memᴰ.head (sym same),
                  (
                    rw same (omega arith),
                    All-weaken (measure f) (measure y) xs (rw⁻¹ same (below x y before)) least,
                  ),
                )
            | inr after ↦
                let same : y ≡ f = ground arith in
                (
                  Memᴰ.tail (subst (λ z. Memᴰ z xs) same here),
                  (
                    rw⁻¹ same (above x y after),
                    subst (λ z. All (λ x. measure z ≤ measure x) xs) same least,
                  ),
                )
          ]
    ]
