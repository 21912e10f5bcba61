-- ===== src/Service/Enrollment/Drops.antt =====
-- A drop, as a whole.
use orientation_enrollment_p.Base.{
  ℕ, Bool, true, false, not, ◌&&◌, ◌≡◌, refl, sym, ◌∙◌, ap, subst, ◌==◌, some, arith, find, ltb,
  ==_iff,
}
use orientation_enrollment_p.Base.Int.{negsuc}
use orientation_enrollment_p.Base.Time.{Time}
use orientation_enrollment_p.Base.Text.{Text, codes}
use orientation_enrollment_p.Domain.Errors.{ok, sentinel, wrapped, Sentinel, window_closed}
use orientation_enrollment_p.Domain.Identity.{Principal, can_act_on_student, is_registrar_role}
use orientation_enrollment_p.Domain.Audit.{enrollment_drop, success, number}
use orientation_enrollment_p.Domain.Catalog.{Section, drop_allowed}
use orientation_enrollment_p.Domain.Enrollment.{
  Enrollment, EnrollmentStatus, holds_seat, seat_delta, transition, pending, enrolled, waitlisted,
  dropped, withdrawn, completed,
}
use orientation_enrollment_p.Storage.Db.{Db, Env, ◌>>◌, pure, raise_if}
use orientation_enrollment_p.Storage.Rules.{>>=-then, >>=-read, >>=-lift, raise_if-ReadOnly}
use orientation_enrollment_p.Storage.Rows.Keys.{find-passes}
use orientation_enrollment_p.Storage.Catalog.{
  find_term_by_id, find_section_by_id, release_seat, adjust_waitlist_length,
}
use orientation_enrollment_p.Storage.Catalog.Contracts.{find_section_by_id-ok}
use orientation_enrollment_p.Storage.Enrollments.{
  find_enrollment_by_id, update_enrollment, update_enrollments, at_version, with_lifecycle,
}
use orientation_enrollment_p.Storage.Enrollments.Contracts.{
  find_enrollment_by_id-ok, update_enrollment-ok,
}
use orientation_enrollment_p.Storage.Transactions.Records.{SameSeats, audited, offered-SameSeats}
use orientation_enrollment_p.Storage.Consistency.{Consistent}
use orientation_enrollment_p.Service.Enrollment.Drop.{
  enqueue_waitlist_promotion, give_back, settle_counters, drop_target, drop_once,
}
use orientation_enrollment_p.Service.Enrollment.Reads.{
  Loaded-id, find_enrollment_by_id-ReadOnly, find_section_by_id-ReadOnly, find_term_by_id-ReadOnly,
}
use orientation_enrollment_p.Service.Enrollment.Moves.{Moved, Moved-Consistent}
use orientation_enrollment_p.Service.Enrollment.Counters.{
  Settled, Sound, Settled-SameSeats, nothing-Settled, release-Settled, leave-Settled,
}

give_back-Settled :
    (s : Section) (now : Time) (env : Env) (db after : Db) {u : Unit {0}}
    → Sound db
    → give_back s now env db ≡ (ok u, after)
    → Settled s.id enrolled dropped db after
unfolding give_back enqueue_waitlist_promotion
give_back-Settled s now env db after sound h =
    >>=-then (release_seat s.id s.version now) _ env db h (λ t between h1 k1.
      Settled-SameSeats s.id enrolled dropped db between after
        (release-Settled s.id s.version now env db between {s = t} sound h1)
        (subst (λ d. SameSeats between d) (ap (λ r. r.1) k1)
          (offered-SameSeats (ltb 0 t.waitlist_length) _ env between)))

leave_waitlist-Settled :
    (id : ℕ) (now : Time) (env : Env) (db after : Db) {u : Unit {0}}
    → Sound db
    → (adjust_waitlist_length id (negsuc 0) now >> pure (tt {0})) env db ≡ (ok u, after)
    → Settled id waitlisted withdrawn db after
leave_waitlist-Settled id now env db after sound h =
    >>=-then (adjust_waitlist_length id (negsuc 0) now) _ env db h (λ t between h1 k1.
      subst (λ d. Settled id waitlisted withdrawn db d) (ap (λ r. r.1) k1)
        (leave-Settled id now env db between {s = t} sound h1))

-- Three states can be dropped.
abbrev droppable : EnrollmentStatus → Bool
droppable pending = true
droppable enrolled = true
droppable waitlisted = true
droppable _ = false

transition_from :
    (e : Enrollment) (now : Time) (reason : Text) {c : Enrollment}
    → transition e (drop_target e.status) now reason ≡ ok c
    → (c.id ≡ e.id) × (c.status ≡ drop_target e.status) × (droppable e.status ≡ true)
unfolding transition holds_seat
transition_from e now reason h = ground arith

settle_counters-Settled :
    (s : Section) (previous : EnrollmentStatus) (now : Time) (env : Env) (db after : Db)
    {u : Unit {0}}
    → droppable previous ≡ true
    → Sound db
    → settle_counters s previous now env db ≡ (ok u, after)
    → Settled s.id previous (drop_target previous) db after
unfolding settle_counters seat_delta holds_seat
settle_counters-Settled s pending now env db after may sound h =
    subst (λ d. Settled s.id pending withdrawn db d) (ap (λ r. r.1) h)
      (nothing-Settled s.id pending withdrawn db refl refl sound)
settle_counters-Settled s enrolled now env db after may sound h =
    >>=-then (give_back s now) _ env db h (λ u between h1 k1.
      subst (λ d. Settled s.id enrolled dropped db d) (ap (λ r. r.1) k1)
        (give_back-Settled s now env db between sound h1))
settle_counters-Settled s waitlisted now env db after may sound h =
    leave_waitlist-Settled s.id now env db after sound h
settle_counters-Settled s dropped now env db after may sound h = absurd (ground arith)
settle_counters-Settled s withdrawn now env db after may sound h = absurd (ground arith)
settle_counters-Settled s completed now env db after may sound h = absurd (ground arith)

dropped-Moved :
    (x moved : Enrollment) (s : Section) (now : Time) (env : Env) (id : ℕ) (db db1 db2 after : Db)
    {u : Unit {0}}
    → Consistent db
    → find (λ r. r.id == id) db.enrollments ≡ some x
    → s.id ≡ x.section_id
    → moved.id ≡ x.id
    → moved.status ≡ drop_target x.status
    → droppable x.status ≡ true
    → db1 ≡ update_enrollments (at_version moved.id x.version) (with_lifecycle moved) db
    → settle_counters s x.status now env db1 ≡ (ok u, db2)
    → SameSeats db2 after
    → Moved x moved db after
dropped-Moved x moved s now env id db db1 db2 after fine found own_section own_id reached may
      updated h same =
    let key = (==_iff x.id id).0 (find-passes (λ r. r.id == id) db.enrollments {x = x} found) in
    let sections : db1.sections ≡ db.sections = ap (λ d. d.sections) updated in
    let sound : Sound db1 = record {
      one_section = λ k. rw sections (fine.one_section k);
      limits = rw sections fine.limits;
    } in
    let settled =
      Settled-SameSeats s.id x.status (drop_target x.status) db1 db2 after
        (settle_counters-Settled s x.status now env db1 db2 may sound h) same in
    record {
      found = subst (λ n. find (λ r. r.id == n) db.enrollments ≡ some x) (sym key) found;
      enrollments = settled.enrollments ∙ rw (updated, own_id) refl;
      next_id = settled.next_id ∙ ap (λ d. d.next_enrollment_id) updated;
      one_section = settled.one_section;
      limits = settled.limits;
      counted =
          λ k r at. let c = settled.counted k r at in rw (reached, sym own_section, sym sections) c;
    }

-- A drop that succeeds keeps the tables consistent: the section's counters follow the claim, whether
-- it gave up a seat, a place on the waitlist, or neither.
pub drop_once-Consistent :
    (actor : Principal) (id : ℕ) (reason : Text) (now : Time) (env : Env) (db after : Db)
    {e : Enrollment}
    → Consistent db
    → drop_once actor id reason now env db ≡ (ok e, after)
    → Consistent after
unfolding drop_once
drop_once-Consistent actor id reason now env db after {e} fine h =
    >>=-read (find_enrollment_by_id id) _ env db (find_enrollment_by_id-ReadOnly id) h (λ x h1 k1.
      >>=-read
        (raise_if (not (can_act_on_student actor x.student_id))
          (wrapped (sentinel Sentinel.forbidden)))
        _ env db (raise_if-ReadOnly _ _) k1
        (λ u1 h2 k2.
          >>=-read (find_term_by_id x.term_id) _ env db (find_term_by_id-ReadOnly x.term_id) k2
            (λ term h3 k3.
              >>=-read
                (raise_if (not (is_registrar_role actor) && not (drop_allowed term now))
                  (wrapped (sentinel window_closed)))
                _ env db (raise_if-ReadOnly _ _) k3
                (λ u2 h4 k4.
                  >>=-read (find_section_by_id x.section_id) _ env db
                    (find_section_by_id-ReadOnly x.section_id) k4
                    (λ s h5 k5.
                      >>=-lift (transition x (drop_target x.status) now reason) _ env db k5
                        (λ moved h6 k6.
                          >>=-then (update_enrollment moved x.version) _ env db k6
                            (λ saved db1 h7 k7.
                              >>=-then (settle_counters s x.status now) _ env db1 k7
                                (λ u3 db2 h8 k8.
                                  let found =
                                    (find_enrollment_by_id-ok id env db db {e = x} h1).1 in
                                  let loaded =
                                    (find_section_by_id-ok x.section_id env db db {s = s} h5).1 in
                                  let (same_id, reached, may) =
                                    transition_from x now reason {c = moved} h6 in
                                  let updated =
                                    (update_enrollment-ok moved x.version env db db1 {c = saved}
                                      h7).0 in
                                  let (same_result, same) =
                                    audited (some actor) enrollment_drop (codes "enrollment")
                                      (number saved.id) success saved env db2 after k8 in
                                  Moved-Consistent x moved db after fine (
                                    dropped-Moved x moved s now env id db db1 db2 after fine found
                                      (Loaded-id db x.section_id s loaded) same_id reached may
                                      updated h8 same)))))))))
