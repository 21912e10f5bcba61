-- ===== src/Security/Decimal.antt =====
-- strconv.Itoa and strconv.Atoi on int, as credentials.go uses them for the work factor.
use orientation_enrollment_p.Base.{
  ℕ, zero, suc, true, false, ◌&&◌, ◌+◌, ◌-◌, ◌*◌, ◌/◌, ◌%◌, ◌^◌, ◌<◌, ◌≡◌, ◌≢◌, refl, ◌∙◌, ap,
  arith, Option, none, some, [], ◌∷◌, ◌++◌, ltb, leb, ◌==◌, if◌then◌else◌, Bool, inl, inr,
  Bool-cases, any,
}
use orientation_enrollment_p.Base.Int.{ℤ, pos, negsuc}
use orientation_enrollment_p.Base.Text.{Text}

-- At most `width` decimal digits, without leading zeros.
unfoldable pub decimal : ℕ → ℕ → Text
decimal zero n = []
decimal (suc width) n =
    let front = decimal width (n / 10) in
    if ltb n 10 then (48 + n) ∷ [] else front ++ (48 + n % 10) ∷ []

-- An int that is not negative has at most 19 digits.
unfoldable pub itoa : ℕ → Text
unfolding decimal
itoa n = decimal 20 n

abbrev is_digit : ℕ → Bool
is_digit c = leb 48 c && leb c 57

unfoldable pub scan : ℕ → Text → Option ℕ
scan n [] = some n
scan n (c ∷ s) = let rest = scan (n * 10 + (c - 48)) s in if is_digit c then rest else none

abbrev minus : ℕ → ℤ
minus zero = pos 0
minus (suc n) = negsuc n

abbrev above_zero : Option ℕ → Option ℤ
above_zero none = none
above_zero (some n) = if ltb n (2 ^ 63) then some (pos n) else none

abbrev below_zero : Option ℕ → Option ℤ
below_zero none = none
below_zero (some n) = if leb n (2 ^ 63) then some (minus n) else none

-- Digits after the sign; no digits is an error.
abbrev digits : Text → Option ℕ
digits [] = none
digits (c ∷ s) = scan 0 (c ∷ s)

-- `Atoi`, with its errors of syntax and range as `none`.
unfoldable pub atoi : Text → Option ℤ
unfolding scan
atoi [] = none
atoi (c ∷ s) =
    if c == 45
    then below_zero (digits s)
    else if c == 43
    then above_zero (digits s)
    else above_zero (digits (c ∷ s))

scan_last :
    (n m d : ℕ) (s : Text)
    → scan n s ≡ some m
    → d < 10
    → scan n (s ++ (48 + d) ∷ []) ≡ some (m * 10 + d)
unfolding scan
scan_last n m d [] h small = ground arith
scan_last n m d (c ∷ s) h small = elim (Bool-cases (is_digit c)) [
  | inl e ↦ rw e (scan_last (n * 10 + (c - 48)) m d s (ground arith) small)
  | inr e ↦ absurd (ground arith)
]

scan-decimal : (width n : ℕ) → n < 10 ^ suc width → scan 0 (decimal (suc width) n) ≡ some n
unfolding decimal scan
scan-decimal zero n small = ground arith
scan-decimal (suc width) n small = elim (Bool-cases (ltb n 10)) [
  | inl e ↦ ground arith
  | inr e ↦ rw e (
      scan_last 0 (n / 10) (n % 10) (decimal (suc width) (n / 10))
        (scan-decimal width (n / 10) (ground arith)) (omega arith)
      ∙ ap some (omega arith))
]

-- No byte of the digits is below that of 0.
abbrev below_digits : ℕ → Bool
below_digits b = ltb b 48

any_last :
    (test : ℕ → Bool) (s : Text) (c : ℕ)
    → any test s ≡ false
    → test c ≡ false
    → any test (s ++ c ∷ []) ≡ false
any_last test [] c h last = ground arith
any_last test (b ∷ s) c h last = ground (arith, any_last test s c)

decimal-plain : (width n : ℕ) → any below_digits (decimal width n) ≡ false
unfolding decimal
decimal-plain zero n = refl
decimal-plain (suc width) n = elim (Bool-cases (ltb n 10)) [
  | inl e ↦ ground arith
  | inr e ↦ rw e (
      any_last below_digits (decimal width (n / 10)) (48 + n % 10) (decimal-plain width (n / 10))
        (ground arith))
]

any_weaker :
    (p q : ℕ → Bool) (s : Text)
    → ((b : ℕ) → q b ≡ true → p b ≡ true)
    → any p s ≡ false
    → any q s ≡ false
any_weaker p q [] weaker h = refl
any_weaker p q (b ∷ s) weaker h = ground (arith, weaker b, any_weaker p q s weaker)

-- A dollar sign is not among the digits.
pub itoa-plain : (n : ℕ) → any (λ b. b == 36) (itoa n) ≡ false
unfolding itoa
itoa-plain n =
    any_weaker below_digits (λ b. b == 36) (decimal 20 n) (λ b h. ground arith) (decimal-plain 20 n)

last-≢ : (s : Text) (c : ℕ) → s ++ c ∷ [] ≢ []
last-≢ [] c h = cc
last-≢ (b ∷ s) c h = cc

decimal-≢ : (width n : ℕ) → decimal (suc width) n ≢ []
unfolding decimal
decimal-≢ width n h = ground (arith, last-≢ (decimal width (n / 10)) (48 + n % 10))

atoi-plain : (s : Text) → any below_digits s ≡ false → s ≢ [] → atoi s ≡ above_zero (scan 0 s)
unfolding atoi
atoi-plain [] plain some_byte = absurd (some_byte refl)
atoi-plain (c ∷ s) plain some_byte = ground arith

-- An int that is not negative is read back from its print.
pub atoi-itoa : (n : ℕ) → n < 2 ^ 63 → atoi (itoa n) ≡ some (pos n)
unfolding itoa
atoi-itoa n small =
    atoi-plain (decimal 20 n) (decimal-plain 20 n) (decimal-≢ 19 n)
    ∙ rw (scan-decimal 19 n (omega arith)) (ground arith)
