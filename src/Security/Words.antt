-- ===== src/Security/Words.antt =====
-- strings.Join and strings.Split of package strings, with a separator of one byte.
use orientation_enrollment_p.Base.{
  ℕ, false, ◌≡◌, refl, arith, List, [], ◌∷◌, ◌++◌, ◌==◌, if◌then◌else◌, any,
}
use orientation_enrollment_p.Base.Text.{Text}

unfoldable pub join : ℕ → List Text → Text
join b [] = []
join b (w ∷ []) = w
join b (w ∷ v ∷ ws) = w ++ (b ∷ join b (v ∷ ws))

-- The byte before the first word.
abbrev onto_first : ℕ → List Text → List Text
onto_first c [] = (c ∷ []) ∷ []
onto_first c (w ∷ ws) = (c ∷ w) ∷ ws

unfoldable pub split : ℕ → Text → List Text
split b [] = [] ∷ []
split b (c ∷ s) = let rest = split b s in if c == b then [] ∷ rest else onto_first c rest

-- A word without the separator ends where the separator stands.
pub split-word :
    (b : ℕ) (w s : Text) → any (λ c. c == b) w ≡ false → split b (w ++ (b ∷ s)) ≡ w ∷ split b s
unfolding split
split-word b [] s h = ground arith
split-word b (c ∷ w) s h = ground (arith, split-word b w s)

pub split-alone : (b : ℕ) (w : Text) → any (λ c. c == b) w ≡ false → split b w ≡ w ∷ []
unfolding split
split-alone b [] h = refl
split-alone b (c ∷ w) h = ground (arith, split-alone b w)
