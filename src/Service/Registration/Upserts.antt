-- ===== src/Service/Registration/Upserts.antt =====
-- What the transactions of the paperwork write.
use orientation_enrollment_p.Base.{
  ℕ, suc, Bool, ◌≡◌, ◌≢◌, refl, ap, ◌∙◌, sym, subst, ◌⊎◌, inl, inr, ◌&&◌, ◌||◌, ◌==◌, arith, some,
  ◌∷◌, find, any, count, Bool-cases, Option-cases, then_taken, else_taken,
}
use orientation_enrollment_p.Base.Time.{Time}
use orientation_enrollment_p.Base.Text.{codes}
use orientation_enrollment_p.Domain.Errors.{
  ok, err, is, tag, wrapped, opaque, sentinel, canceled, deadline_exceeded,
}
use orientation_enrollment_p.Domain.Identity.{Principal}
use orientation_enrollment_p.Domain.Audit.{
  registration_submit, registration_decide, success, number, AuditAction,
}
use orientation_enrollment_p.Domain.Registration.{Registration, verified, submit, decide}
use orientation_enrollment_p.Domain.Registration.Lifecycle.{submit-ok, decide-ok}
use orientation_enrollment_p.Storage.Db.{
  Db, driver, stopped, timed_out, Env, Tx, pure, update_where, attempt, ◌>>=◌,
}
use orientation_enrollment_p.Storage.Rules.{
  >>=-then, >>=-read, >>=-lift, >>=-raise_if, attempt-ReadOnly, or_not_found-ok,
}
use orientation_enrollment_p.Storage.Registrations.{
  at_version, with_record, create_registration, replace_registration, upsert_registration,
  find_registration, find_registration_by_id, same_record,
}
use orientation_enrollment_p.Storage.Transactions.{record_event}
use orientation_enrollment_p.Storage.Transactions.Views.{record_event-Keeps}
use orientation_enrollment_p.Service.Rejections.{if_missing}
use orientation_enrollment_p.Service.Registration.{
  SubmitInput, blank_record, with_input, submit_once, DecideInput, decide_once,
}

-- The paperwork's rows and next key after a row was inserted or updated.
abbrev pub Upserted : Registration → Db → Db → Type 0
Upserted r db after =
    ((r.id ≡ 0)
      × (after.registrations
          ≡ record r { id = db.next_registration_id; version = 1 } ∷ db.registrations)
      × (after.next_registration_id ≡ suc db.next_registration_id))
    ⊎ ((r.id ≢ 0)
        × (after.registrations ≡ update_where (at_version r) (with_record r) db.registrations)
        × (after.next_registration_id ≡ db.next_registration_id))

create_registration-ok :
    (r : Registration) (env : Env) (db after : Db) {s : Registration}
    → create_registration r env db ≡ (ok s, after)
    → (after.registrations
        ≡ record r { id = db.next_registration_id; version = 1 } ∷ db.registrations)
      × (after.next_registration_id ≡ suc db.next_registration_id)
create_registration-ok r env db after h =
    >>=-read (attempt "insert registration") _ env db (attempt-ReadOnly "insert registration") h
      (λ u first h1. >>=-raise_if (any (same_record r) db.registrations) _ _ env db h1 (λ free h2.
        (sym (ap (λ x. x.1.registrations) h2), sym (ap (λ x. x.1.next_registration_id) h2))))

replace_registration-ok :
    (r : Registration) (env : Env) (db after : Db) {s : Registration}
    → replace_registration r env db ≡ (ok s, after)
    → (after.registrations ≡ update_where (at_version r) (with_record r) db.registrations)
      × (after.next_registration_id ≡ db.next_registration_id)
replace_registration-ok r env db after h =
    >>=-read (attempt "update registration") _ env db (attempt-ReadOnly "update registration") h
      (λ u first h1.
        >>=-raise_if (count (at_version r) db.registrations == 0) _ _ env _ h1 (λ hit h2.
          (sym (ap (λ x. x.1.registrations) h2), sym (ap (λ x. x.1.next_registration_id) h2))))

upsert_registration-Upserted :
    (r : Registration) (env : Env) (db after : Db) {s : Registration}
    → upsert_registration r env db ≡ (ok s, after)
    → Upserted r db after
unfolding upsert_registration
upsert_registration-Upserted r env db after {s} h =
    >>=-raise_if ((r.student_id == 0) || (r.term_id == 0)) _ _ env db h (λ named rest.
      elim (Bool-cases (r.id == 0)) [
        | inl new ↦
            let (rows, key) = create_registration-ok r env db after {s = s} (
              ap (λ (m : Tx Registration). m env db) (sym (then_taken (r.id == 0) _ _ new))
              ∙ rest) in
            inl (ground arith, rows, key)
        | inr old ↦
            let (rows, key) = replace_registration-ok r env db after {s = s} (
              ap (λ (m : Tx Registration). m env db) (sym (else_taken (r.id == 0) _ _ old))
              ∙ rest) in
            inr (ground arith, rows, key)
      ])

-- An upsert that its audit event follows.
recorded-Upserted :
    (actor : Principal) (action : AuditAction) (r : Registration) (env : Env) (db after : Db)
    {s : Registration}
    → (upsert_registration r >>= λ saved.
          record_event (some actor) action (codes "registration") (number saved.id) success >>= λ u.
          pure saved)
        env db
      ≡ (ok s, after)
    → Upserted r db after
recorded-Upserted actor action r env db after h =
    >>=-then (upsert_registration r) _ env db h (λ saved d written h1.
      >>=-then (record_event (some actor) action (codes "registration") (number saved.id) success) _
        env d h1
        (λ u d2 recorded h2.
          let last : d2 ≡ after = ap (λ x. x.1) h2 in
          let rows : after.registrations ≡ d.registrations =
            ap (λ x. x.registrations) (sym last)
            ∙ ap (λ x. x.1.registrations) (sym recorded)
            ∙ record_event-Keeps (λ x. x.registrations) (λ e b. refl) (some actor) action
                (codes "registration") (number saved.id) success env d in
          let key : after.next_registration_id ≡ d.next_registration_id =
            ap (λ x. x.next_registration_id) (sym last)
            ∙ ap (λ x. x.1.next_registration_id) (sym recorded)
            ∙ record_event-Keeps (λ x. x.next_registration_id) (λ e b. refl) (some actor) action
                (codes "registration") (number saved.id) success env d in
          rw (rows, key) (upsert_registration-Upserted r env db d written)))

-- The record that a transaction of the paperwork started from, and the one that it wrote back. What it
-- started from is new, or was found by some test of the rows; it was not verified.
pub record Filing (db after : Db) : Type 0 where
  pub current : Registration
  pub written : Registration
  pub known :
      (current.id ≡ 0)
      ⊎ ((test : Registration → Bool) × (find test db.registrations ≡ some current))
  pub undecided : current.status ≢ verified
  pub same_id : written.id ≡ current.id
  pub stored : Upserted written db after

submit_keeps : (r q : Registration) (now : Time) → submit r now ≡ ok q → q.id ≡ r.id
unfolding submit
submit_keeps r q now h = ground arith

decide_keeps :
    (r q : Registration) (i : DecideInput) (actor : Principal) (now : Time)
    → decide r i.status actor.user_id i.note now ≡ ok q
    → q.id ≡ r.id
unfolding decide
decide_keeps r q i actor now h = ground arith

submit_open : (r q : Registration) (now : Time) → submit r now ≡ ok q → r.status ≢ verified
submit_open r q now h = let facts = submit-ok r q now h in ground arith

decide_open :
    (r q : Registration) (i : DecideInput) (actor : Principal) (now : Time)
    → decide r i.status actor.user_id i.note now ≡ ok q
    → r.status ≢ verified
decide_open r q i actor now h =
    let facts = decide-ok r q i.status actor.user_id i.note now h in ground arith

-- The row of the student and term, or a blank one.
looked_up :
    (i : SubmitInput) (now : Time) (env : Env) (db after : Db) {c : Registration}
    → if_missing (find_registration i.student_id i.term_id) (blank_record i now) env db
      ≡ (ok c, after)
    → ((c.id ≡ 0) ⊎ ((test : Registration → Bool) × (find test db.registrations ≡ some c)))
      × (after ≡ db)
unfolding find_registration attempt is tag
looked_up i now env db after {c} h =
    let test = λ (r : Registration). r.student_id == i.student_id && r.term_id == i.term_id in
    let answer =
      if_missing (find_registration i.student_id i.term_id) (blank_record i now) env db in
    elim (Option-cases (env.fault "select registration" db)) [
      | inl fine ↦ elim (Option-cases (find test db.registrations)) [
        | inl absent ↦
            let e : answer ≡ (ok (blank_record i now), db) = rw (fine, absent) refl in
            (inl (ground arith), ground arith)
        | inr (r, found) ↦
            let e : answer ≡ (ok r, db) = rw (fine, found) refl in
            let same : r ≡ c = ground arith in (inr (test, found ∙ ap some same), ground arith)
      ]
      | inr (driver, failed) ↦
          let e : answer ≡ (err (wrapped opaque), db) = rw failed refl in absurd (ground arith)
      | inr (stopped, failed) ↦
          let e : answer ≡ (err (wrapped (sentinel canceled)), db) = rw failed refl in
          absurd (ground arith)
      | inr (timed_out, failed) ↦
          let e : answer ≡ (err (wrapped (sentinel deadline_exceeded)), db) = rw failed refl in
          absurd (ground arith)
    ]

found_by_id :
    (id : ℕ) (env : Env) (db after : Db) {c : Registration}
    → find_registration_by_id id env db ≡ (ok c, after)
    → (find (λ r. r.id == id) db.registrations ≡ some c) × (after ≡ db)
unfolding find_registration_by_id
found_by_id id env db after h =
    >>=-read (attempt "select registration") _ env db (attempt-ReadOnly "select registration") h
      (λ u first h1. or_not_found-ok _ env db after h1)

pub submit_once-Filing :
    (actor : Principal) (i : SubmitInput) (now : Time) (env : Env) (db after : Db)
    {s : Registration}
    → submit_once actor i now env db ≡ (ok s, after)
    → Filing db after
unfolding submit_once
submit_once-Filing actor i now env db after h =
    >>=-then (if_missing (find_registration i.student_id i.term_id) (blank_record i now)) _ env db h
      (λ c d first h1.
        let (known, same) = looked_up i now env db d first in
        >>=-lift (submit (with_input i c) now) _ env d h1 (λ r moved h2. record {
          current = c;
          written = r;
          known = known;
          undecided = submit_open (with_input i c) r now moved;
          same_id = submit_keeps (with_input i c) r now moved;
          stored =
              subst (λ b. Upserted r b after) same
                (recorded-Upserted actor registration_submit r env d after h2);
        }))

pub decide_once-Filing :
    (actor : Principal) (i : DecideInput) (now : Time) (env : Env) (db after : Db)
    {s : Registration}
    → decide_once actor i now env db ≡ (ok s, after)
    → Filing db after
unfolding decide_once
decide_once-Filing actor i now env db after h =
    >>=-then (find_registration_by_id i.registration_id) _ env db h (λ c d first h1.
      let (known, same) = found_by_id i.registration_id env db d first in
      >>=-lift (decide c i.status actor.user_id i.note now) _ env d h1 (λ r moved h2. record {
        current = c;
        written = r;
        known = inr ((λ q. q.id == i.registration_id), known);
        undecided = decide_open c r i actor now moved;
        same_id = decide_keeps c r i actor now moved;
        stored =
            subst (λ b. Upserted r b after) same
              (recorded-Upserted actor registration_decide r env d after h2);
      }))
