-- ===== src/Domain/Job/Schedule.antt =====
-- The retry schedule of the jobs.
use native.Mathlib.Nat.{pow-suc, mul-le-mul_left, mul-one}
use orientation_enrollment_p.Base.{
  ℕ, zero, suc, ◌⊎◌, ap, ◌∙◌, inl, inr, Bool-cases, ◌≡◌, refl, ◌≤◌, ◌<◌, ◌+◌, ◌-◌, ◌*◌, ◌^◌, arith,
  if◌then◌else◌, ltb,
}
use orientation_enrollment_p.Base.Time.{Duration}
use orientation_enrollment_p.Domain.Job.{capped_delay, backoff, float64, exact_below}

-- 2 ^ k is at least 1.
one-le-pow : (k : ℕ) → 1 ≤ 2 ^ k
one-le-pow zero = omega arith
one-le-pow (suc k) = rw pow-suc (omega (arith, one-le-pow k))

pow_step : (k : ℕ) → 2 ^ suc k ≡ 2 ^ k + 2 ^ k
pow_step k = rw pow-suc (omega arith)

-- The k-th doubling, counted to 16.
abbrev doublings : ℕ → ℕ
doublings k = if ltb 16 k then 16 else k

abbrev capped : ℕ → ℕ → ℕ
capped limit n = if ltb limit n then limit else n

float64-exact : (d : Duration) → d < exact_below → float64 d ≡ d
unfolding float64
float64-exact d h = ground arith

backoff_lem :
    (k : ℕ) (base limit : Duration)
    → 1 ≤ base
    → base ≤ limit
    → limit < exact_below
    → backoff (suc k) base limit ≡ capped limit (base * 2 ^ doublings k)
unfolding backoff
backoff_lem k base limit p q exact =
    let shift : (suc k - 1) ≡ k = omega arith in
    let delay : backoff (suc k) base limit ≡ capped_delay (suc k - 1) base limit = ground arith in
    let low = float64-exact base (omega (arith, q, exact)) in
    let high = float64-exact limit exact in
    delay ∙ ap (λ (d : ℕ). capped_delay d base limit) shift ∙ rw (low, high) refl

backoff_zero : (base limit : Duration) → backoff 0 base limit ≡ backoff 1 base limit
unfolding backoff
backoff_zero base limit = refl

capped_bounds :
    (k : ℕ) (base limit : Duration)
    → base ≤ limit
    → (base ≤ capped limit (base * 2 ^ doublings k))
      × (capped limit (base * 2 ^ doublings k) ≤ limit)
capped_bounds k base limit q =
    ground (arith, mul-le-mul_left base (one-le-pow (doublings k)), mul-one base)

-- With a positive base that the cap does not undercut, and a cap below 2^53 nanoseconds, every delay
-- lies between the two.
pub backoff_bounds :
    (attempt : ℕ) (base limit : Duration)
    → 1 ≤ base
    → base ≤ limit
    → limit < exact_below
    → (base ≤ backoff attempt base limit) × (backoff attempt base limit ≤ limit)
backoff_bounds zero base limit p q exact =
    rw (backoff_zero base limit, backoff_lem 0 base limit p q exact) (capped_bounds 0 base limit q)
backoff_bounds (suc k) base limit p q exact =
    rw (backoff_lem k base limit p q exact) (capped_bounds k base limit q)

doublings_step :
    (k : ℕ)
    → ((16 ≤ k) × (doublings (suc k) ≡ doublings k))
      ⊎ ((k < 16) × (doublings (suc k) ≡ suc (doublings k)))
doublings_step k = elim (Bool-cases (ltb 15 k)) [
  | inl late ↦ inl (ground arith, ground arith)
  | inr early ↦ inr (ground arith, ground arith)
]

scaled_step :
    (k base : ℕ)
    → (base * 2 ^ doublings k ≤ base * 2 ^ doublings (suc k))
      × (k < 16 → base * 2 ^ doublings (suc k) ≡ base * 2 ^ doublings k * 2)
scaled_step k base = elim (doublings_step k) [
  | inl (late, same) ↦ (omega (arith, ap (λ (d : ℕ). base * 2 ^ d) same), λ h. absurd (omega arith))
  | inr (early, more) ↦
      let step : base * 2 ^ doublings (suc k) ≡ base * 2 ^ doublings k * 2 =
        ap (λ (d : ℕ). base * 2 ^ d) more
        ∙ ap (λ (x : ℕ). base * x) (pow_step (doublings k))
        ∙ omega arith in
      (omega (arith, step), λ _. step)
]

-- With a positive base that the cap does not undercut, and a cap below 2^53 nanoseconds, a later
-- attempt never waits less; and until the 17th attempt each delay is twice the one before, where that
-- stays within the cap.
pub backoff_grows :
    (k : ℕ) (base limit : Duration)
    → 1 ≤ base
    → base ≤ limit
    → limit < exact_below
    → (backoff (suc k) base limit ≤ backoff (suc (suc k)) base limit)
      × (k < 16
          → backoff (suc k) base limit * 2 ≤ limit
          → backoff (suc (suc k)) base limit ≡ backoff (suc k) base limit * 2)
backoff_grows k base limit p q exact =
    rw (backoff_lem k base limit p q exact, backoff_lem (suc k) base limit p q exact)
      (ground (arith, scaled_step k base))
