-- ===== src/Domain/Catalog/Schedule.antt =====
-- Weekly blocks: `overlaps` decides whether two blocks share a minute, and `FindScheduleConflict`
-- finds the first colliding pair.
use orientation_enrollment_p.Base.{
  true, false, ◌≡◌, refl, sym, ◌↔◌, ◌⊎◌, inl, inr, arith, none, some, List, [], ◌∷◌, All,
  Bool-cases,
}
use mathlib.Core.List.{Memᴰ}
use orientation_enrollment_p.Base.Int.{ℤ, ◌≤ℤ◌, leb_ℤ, eqb_ℤ_iff, max_ℤ}
use orientation_enrollment_p.Domain.Errors.{ok}
use orientation_enrollment_p.Domain.Catalog.{
  Meeting, validate_meeting, overlaps, first_overlap, find_schedule_conflict,
}

-- The minute `t` of the day `d` lies in the block, whose last minute is before its end.
abbrev pub Occupies : Meeting → ℤ → ℤ → Type 0
Occupies m d t = (m.weekday ≡ d) × (m.start_minute ≤ℤ t) × (¬ (m.end_minute ≤ℤ t))

-- Validity, as an order of the two ends.
valid_order : (m : Meeting) → validate_meeting m ≡ ok tt → ¬ (m.end_minute ≤ℤ m.start_minute)
unfolding validate_meeting
valid_order m v = ground arith

overlaps_parts :
    (m n : Meeting)
    → (overlaps m n ≡ true) ↔ (
        (m.weekday ≡ n.weekday)
        × (¬ (n.end_minute ≤ℤ m.start_minute))
        × (¬ (m.end_minute ≤ℤ n.start_minute)))
unfolding overlaps
overlaps_parts m n = ground (arith, eqb_ℤ_iff m.weekday n.weekday)

shared_minute :
    (m n : Meeting)
    → ¬ (m.end_minute ≤ℤ m.start_minute)
    → ¬ (n.end_minute ≤ℤ n.start_minute)
    → ¬ (n.end_minute ≤ℤ m.start_minute)
    → ¬ (m.end_minute ≤ℤ n.start_minute)
    → let t = max_ℤ m.start_minute n.start_minute in
      (m.start_minute ≤ℤ t)
      × (¬ (m.end_minute ≤ℤ t))
      × (n.start_minute ≤ℤ t)
      × (¬ (n.end_minute ≤ℤ t))
shared_minute m n vm vn mn nm = elim (Bool-cases (leb_ℤ m.start_minute n.start_minute)) [
  | inl e ↦ rw e (ground arith)
  | inr e ↦ rw e (ground arith)
]

-- Two valid blocks overlap exactly when some minute of the week lies in both; blocks that only
-- touch share none.
pub overlaps_iff :
    (m n : Meeting)
    → validate_meeting m ≡ ok tt
    → validate_meeting n ≡ ok tt
    → (overlaps m n ≡ true) ↔ ((t : ℤ) × Occupies m m.weekday t × Occupies n m.weekday t)
overlaps_iff m n vm vn = (
  λ o.
      let (day, mn, nm) = (overlaps_parts m n).0 o in
      let (a, b, c, d) = shared_minute m n (valid_order m vm) (valid_order n vn) mn nm in
      (max_ℤ m.start_minute n.start_minute, (refl, a, b), (sym day, c, d)),
  λ (t, inm, inn). (overlaps_parts m n).1 (sym inn.0, omega arith, omega arith),
)

-- No meeting of the list collides with the block.
abbrev pub Fits : Meeting → List Meeting → Type 0
Fits c held = All (λ h. overlaps c h ≡ false) held

first_overlap_lem :
    (c : Meeting) (held : List Meeting)
    → ((first_overlap c held ≡ none) × Fits c held)
      ⊎ ((h : Meeting) × (first_overlap c held ≡ some (c, h)) × Memᴰ h held × (overlaps c h ≡ true))
unfolding first_overlap
first_overlap_lem c [] = inl (refl, tt)
first_overlap_lem c (h ∷ held) = elim (Bool-cases (overlaps c h)) [
  | inl e ↦ inr (h, rw e, Memᴰ.head refl, e)
  | inr e ↦ elim (first_overlap_lem c held) [
    | inl (missed, fits) ↦ inl (rw e missed, (e, fits))
    | inr (g, found, mem, hit) ↦ inr (g, rw e found, Memᴰ.tail mem, hit)
  ]
]

-- The search finds no pair exactly when every candidate block fits beside every held one; a pair
-- that it finds is a candidate block and a held one that overlap.
pub find_schedule_conflict_cases :
    (candidate held : List Meeting)
    → ((find_schedule_conflict candidate held ≡ none) × All (λ c. Fits c held) candidate)
      ⊎ ((c h : Meeting) × (find_schedule_conflict candidate held ≡ some (c, h))
          × Memᴰ c candidate
          × Memᴰ h held
          × (overlaps c h ≡ true))
unfolding find_schedule_conflict
find_schedule_conflict_cases [] held = inl (refl, tt)
find_schedule_conflict_cases (c ∷ candidate) held = elim (first_overlap_lem c held) [
  | inl (missed, fits) ↦ elim (find_schedule_conflict_cases candidate held) [
    | inl (none_left, rest) ↦ inl (rw (missed, find_schedule_conflict) none_left, (fits, rest))
    | inr (d, h, found, mem_d, mem_h, hit) ↦
        inr (d, h, rw (missed, find_schedule_conflict) found, Memᴰ.tail mem_d, mem_h, hit)
  ]
  | inr (h, found, mem, hit) ↦
      inr (c, h, rw (found, find_schedule_conflict), Memᴰ.head refl, mem, hit)
]
