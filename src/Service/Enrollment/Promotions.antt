-- ===== src/Service/Enrollment/Promotions.antt =====
-- A promotion, as a whole.
use orientation_enrollment_p.Base.{
  ℕ, Bool, true, false, not, ◌||◌, ◌≡◌, refl, sym, ◌∙◌, ap, subst, ◌≤◌, ◌==◌, inl, inr, ◌⊎◌, Option,
  none, some, arith, [], find, All, Bool-cases, ==_iff, else_taken, &&_true,
}
use orientation_enrollment_p.Base.Int.{negsuc}
use orientation_enrollment_p.Base.Time.{Time}
use orientation_enrollment_p.Base.Text.{codes}
use orientation_enrollment_p.Domain.Errors.{Result, ok, err}
use orientation_enrollment_p.Domain.Audit.{enrollment_promote, success, number}
use orientation_enrollment_p.Domain.Catalog.{Section, accepts_enrollment, seats_available}
use orientation_enrollment_p.Domain.Enrollment.{Enrollment, transition, enrolled, waitlisted}
use orientation_enrollment_p.Storage.Db.{Db, Env, Tx, and_then, ◌>>=◌, pure}
use orientation_enrollment_p.Storage.Rules.{>>=-then, >>=-read, >>=-lift}
use orientation_enrollment_p.Storage.Catalog.{
  find_section_by_id, claim_seat, adjust_waitlist_length,
}
use orientation_enrollment_p.Storage.Catalog.Contracts.{find_section_by_id-ok}
use orientation_enrollment_p.Storage.Enrollments.{update_enrollment, waits_in, head_of_waitlist}
use orientation_enrollment_p.Storage.Enrollments.Contracts.{update_enrollment-ok}
use orientation_enrollment_p.Storage.Enrollments.Waitlist.{
  head_of_waitlist-first, head_of_waitlist-ReadOnly,
}
use orientation_enrollment_p.Storage.Transactions.Records.{audited}
use orientation_enrollment_p.Storage.Consistency.{Consistent}
use orientation_enrollment_p.Service.Rejections.{if_missing, or_default}
use orientation_enrollment_p.Service.Enrollment.Promotion.{seat_head, seat_some, promote_once}
use orientation_enrollment_p.Service.Enrollment.Reads.{Loaded-id, find_section_by_id-ReadOnly}
use orientation_enrollment_p.Service.Enrollment.Moves.{Moved}
use orientation_enrollment_p.Service.Enrollment.Counters.{
  Settled-SameSeats, take-Settled, leave-Settled, promote-Counted,
}

-- The waiting claim becomes a seated one.
seated_from :
    (e : Enrollment) (now : Time) {c : Enrollment}
    → transition e enrolled now [] ≡ ok c
    → (c.id ≡ e.id) × (c.status ≡ enrolled)
unfolding transition
seated_from e now h = ground arith

-- What `seat_head` writes, for a claim that waits in the section.
pub seat_head-Moved :
    (s : Section) (head : Enrollment) (now : Time) (env : Env) (db after : Db) {done : Bool}
    → Consistent db
    → waits_in s.id head ≡ true
    → find (λ e. e.id == head.id) db.enrollments ≡ some head
    → seat_head s head now env db ≡ (ok done, after)
    → (done ≡ true) × (c : Enrollment) × (c.status ≡ enrolled) × Moved head c db after
unfolding seat_head
seat_head-Moved s head now env db after fine waits found h =
    >>=-then (claim_seat s.id s.version now) _ env db h (λ t db1 h1 k1.
      >>=-lift (transition head enrolled now []) _ env db1 k1 (λ moved h2 k2.
        >>=-then (update_enrollment moved head.version) _ env db1 k2 (λ saved db2 h3 k3.
          >>=-then (adjust_waitlist_length s.id (negsuc 0) now) _ env db2 k3 (λ u db3 h4 k4.
            let taken =
              take-Settled s.id s.version now env db db1 {s = t}
                (record { one_section = fine.one_section; limits = fine.limits }) h1 in
            let (own_id, reached) = seated_from head now {c = moved} h2 in
            let updated = (update_enrollment-ok moved head.version env db1 db2 {c = saved} h3).0 in
            let sections : db2.sections ≡ db1.sections = ap (λ d. d.sections) updated in
            let left =
              leave-Settled s.id now env db2 db3 {s = u}
                (record {
                  one_section = λ k. rw sections (taken.one_section k);
                  limits = rw sections taken.limits;
                })
                h4 in
            let (same_result, same) =
              audited none enrollment_promote (codes "enrollment") (number saved.id) success true
                env db3 after k4 in
            let last = Settled-SameSeats s.id _ _ db2 db3 after left same in
            let (own_section, waiting) = &&_true _ _ waits in
            let section_id : head.section_id ≡ s.id = (==_iff _ _).0 own_section in
            let waited : head.status ≡ waitlisted = ground arith in
            (
              sym same_result,
              moved,
              reached,
              record {
                found = found;
                enrollments =
                    last.enrollments
                    ∙ ap (λ d. d.enrollments) updated
                    ∙ rw (taken.enrollments, own_id) refl;
                next_id = last.next_id ∙ ap (λ d. d.next_enrollment_id) updated ∙ taken.next_id;
                one_section = last.one_section;
                limits = last.limits;
                counted = λ k r at.
                    rw (reached, section_id, waited)
                      (promote-Counted s.id db db1 db2 after taken sections last k r at);
              },
            )))))

-- A promotion: the claim `head` that waits in the section with the lowest rank is seated.
pub record Promoted (id : ℕ) (db after : Db) : Type 0 where
  pub head : Enrollment
  pub seated : Enrollment
  pub waiting : waits_in id head ≡ true
  pub first : All (λ e. waits_in id e ≡ true → head.waitlist_rank ≤ e.waitlist_rank) db.enrollments
  pub holds : seated.status ≡ enrolled
  pub moved : Moved head seated db after

found_head :
    (r : Result Enrollment × Db) (env : Env) {o : Option Enrollment} {after : Db}
    → or_default none (and_then r.0 (λ e. pure (some e)) env r.1) ≡ (ok o, after)
    → ((o ≡ none) × (after ≡ r.1)) ⊎ ((e : Enrollment) × (o ≡ some e) × (r ≡ (ok e, after)))
found_head (ok e, db) env h = inr (e, ground arith, ground arith)
found_head (err e, db) env h = inl (ground arith, ground arith)

seat_some_cases :
    (id : ℕ) (now : Time) (s : Section) (o : Option Enrollment) (env : Env) (db mid after : Db)
    {done : Bool}
    → Consistent db
    → s.id ≡ id
    → ((o ≡ none) × (mid ≡ (head_of_waitlist id env db).1))
      ⊎ ((e : Enrollment) × (o ≡ some e) × (head_of_waitlist id env db ≡ (ok e, mid)))
    → seat_some s now o env mid ≡ (ok done, after)
    → ((done ≡ false) × (after ≡ db)) ⊎ ((done ≡ true) × Promoted id db after)
seat_some_cases id now s o env db mid after fine own (inl (nobody, same)) h =
    inl (ground arith, ground arith ∙ same ∙ head_of_waitlist-ReadOnly id env db)
seat_some_cases id now s o env db mid after {done} fine own (inr (e, somebody, head)) h =
    let (waits, found, first) =
      head_of_waitlist-first id env db mid {h = e} fine.one_enrollment head in
    let same : mid ≡ db = sym (ap (λ r. r.1) head) ∙ head_of_waitlist-ReadOnly id env db in
    let (yes_done, c, reached, moved) =
      seat_head-Moved s e now env db after {done = done} fine (ap (λ k. waits_in k e) own ∙ waits)
        found
        (ap (seat_head s e now env) (sym same)
          ∙ subst (λ q. seat_some s now q env mid ≡ (ok done, after)) somebody h) in
    inr (
      yes_done,
      record {
        head = e;
        seated = c;
        waiting = waits;
        first = first;
        holds = reached;
        moved = moved;
      },
    )

-- In consistent tables, a promotion that returns a value either leaves the tables as they are and
-- says so, or seats the claim that waits in the section with the lowest rank.
pub promote_once_cases :
    (id : ℕ) (now : Time) (env : Env) (db after : Db) {done : Bool}
    → Consistent db
    → promote_once id now env db ≡ (ok done, after)
    → ((done ≡ false) × (after ≡ db)) ⊎ ((done ≡ true) × Promoted id db after)
unfolding promote_once
promote_once_cases id now env db after {done} fine h =
    >>=-read (find_section_by_id id) _ env db (find_section_by_id-ReadOnly id) h (λ s h1 k1.
      elim (Bool-cases (not (accepts_enrollment s) || (seats_available s == 0))) [
        | inl closed ↦ inl (ground arith, ground arith)
        | inr free ↦
            >>=-then (if_missing (head_of_waitlist id >>= λ e. pure (some e)) none) _ env db
              {b = done} {after = after}
              (ap (λ (m : Tx Bool). m env db) (sym (else_taken _ _ _ free)) ∙ k1)
              (λ o mid h2 k2.
                seat_some_cases id now s o env db mid after {done = done} fine
                  (Loaded-id db id s (find_section_by_id-ok id env db db {s = s} h1).1)
                  (found_head (head_of_waitlist id env db) env {o = o} {after = mid} h2) k2)
      ])
