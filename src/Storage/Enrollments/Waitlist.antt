-- ===== src/Storage/Enrollments/Waitlist.antt =====
-- Waitlist ranks and the head of a waitlist.
use orientation_enrollment_p.Base.{
  ℕ, Bool, true, ◌≡◌, ◌∙◌, ap, subst, ◌+◌, ◌<◌, ◌≤◌, ◌==◌, inl, inr, some, Option-cases, Bool-cases,
  arith, List, [], ◌∷◌, keep, find, first_of, count, All, if◌then◌else◌, ==_refl,
}
use orientation_enrollment_p.Base.Sort.{order_by}
use orientation_enrollment_p.Base.Sort.First.{keep-Mem, find-Mem, order_by-first}
use orientation_enrollment_p.Domain.Errors.{ok}
use orientation_enrollment_p.Domain.Enrollment.{Enrollment}
use orientation_enrollment_p.Storage.Db.{Db, Env}
use orientation_enrollment_p.Storage.Enrollments.{
  waits_in, highest_rank, next_waitlist_rank, waitlist_le, head_of_waitlist,
}

highest_rank-bound :
    (es : List Enrollment) (n : ℕ) → highest_rank es ≤ n → All (λ e. e.waitlist_rank ≤ n) es
unfolding highest_rank
highest_rank-bound [] n h = tt
highest_rank-bound (e ∷ es) n h = (ground arith, highest_rank-bound es n (ground arith))

All-keep :
    (p : Enrollment → Bool) (P : Enrollment → Type 0) (es : List Enrollment)
    → All P (keep p es)
    → All (λ e. p e ≡ true → P e) es
All-keep p P [] h = tt
All-keep p P (e ∷ es) h = elim (Bool-cases (p e)) [
  | inl passes ↦
      let k = subst (λ b. All P (if b then e ∷ keep p es else keep p es)) passes h in
      ((λ q. k.0), All-keep p P es k.1)
  | inr fails ↦
      let k = subst (λ b. All P (if b then e ∷ keep p es else keep p es)) fails h in
      ((λ q. absurd (ground arith)), All-keep p P es k)
]

-- A new place on the waitlist of a section ranks behind every claim that already waits there.
pub next_waitlist_rank-behind :
    (id : ℕ) (env : Env) (db after : Db) {n : ℕ}
    → next_waitlist_rank id env db ≡ (ok n, after)
    → All (λ e. waits_in id e ≡ true → e.waitlist_rank < n) db.enrollments
unfolding next_waitlist_rank
next_waitlist_rank-behind id env db after {n} h =
    let rows = keep (waits_in id) db.enrollments in
    let e : highest_rank rows + 1 ≡ n = ground arith in
    All-keep (waits_in id) (λ e. e.waitlist_rank < n) db.enrollments
      (subst (λ m. All (λ e. e.waitlist_rank < m) rows) e
        (All-suc rows (highest_rank rows)
          (highest_rank-bound rows (highest_rank rows) (omega arith))))
  where
    All-suc :
        (es : List Enrollment) (n : ℕ)
        → All (λ e. e.waitlist_rank ≤ n) es
        → All (λ e. e.waitlist_rank < n + 1) es
    All-suc [] n h = tt
    All-suc (e ∷ es) n h = (omega (arith, h.0), All-suc es n h.1)

-- The claim that is promoted next waits in the section, and no claim that waits there has a lower
-- rank.
pub head_of_waitlist-first :
    (id : ℕ) (env : Env) (db after : Db) {h : Enrollment}
    → ((k : ℕ) → count (λ e. e.id == k) db.enrollments ≤ 1)
    → head_of_waitlist id env db ≡ (ok h, after)
    → (waits_in id h ≡ true)
      × (find (λ e. e.id == h.id) db.enrollments ≡ some h)
      × All (λ e. waits_in id e ≡ true → h.waitlist_rank ≤ e.waitlist_rank) db.enrollments
unfolding head_of_waitlist
head_of_waitlist-first id env db after {h} one k =
    let rows = keep (waits_in id) db.enrollments in
    elim (Option-cases (first_of (order_by waitlist_le rows))) [
      | inl empty ↦ absurd (ground arith)
      | inr (f, first) ↦
          let same : f ≡ h = ground arith in
          let (here, least) =
            order_by-first waitlist_le (λ e. e.waitlist_rank) (λ d e le. ground arith)
              (λ d e le. ground arith) rows {f = h} (first ∙ ap some same) in
          let (stored, waits) = keep-Mem (waits_in id) db.enrollments here in
          (
            waits,
            find-Mem (λ e. e.id == h.id) db.enrollments stored (==_refl h.id) (one h.id),
            All-keep (waits_in id) (λ e. h.waitlist_rank ≤ e.waitlist_rank) db.enrollments least,
          )
    ]

pub head_of_waitlist-ReadOnly : (id : ℕ) (env : Env) (db : Db) → (head_of_waitlist id env db).1 ≡ db
unfolding head_of_waitlist
head_of_waitlist-ReadOnly id env db = ground arith
