-- ===== src/Storage/Transactions/Views.antt =====
-- An audit event leaves every table alone but that of the events.
use orientation_enrollment_p.Base.{◌≡◌, refl, Option, inl, inr, Option-cases}
use orientation_enrollment_p.Base.Text.{Text}
use orientation_enrollment_p.Domain.Errors.{Result, ok, err}
use orientation_enrollment_p.Domain.Identity.{Principal}
use orientation_enrollment_p.Domain.Audit.{
  AuditAction, AuditResult, AuditEvent, ObjectId, validate_event,
}
use orientation_enrollment_p.Storage.Db.{Db, Env, Tx, and_then, attempt}
use orientation_enrollment_p.Storage.Transactions.{
  in_tx, event_of, insert_event, store_event, append_audit_event, record_event,
}
use orientation_enrollment_p.Storage.Transactions.Atomic.{in_tx_atomic}

module _ {X : Type 0} (view : Db → X)
    (blind : (e : AuditEvent) (db : Db) → view (store_event e db) ≡ view db) where
  abbrev pub Keeps : {A : Type 0} → Tx A → Type 0
  Keeps m = (env : Env) (db : Db) → view (m env db).1 ≡ view db

  and_then-Keeps :
      {A B : Type 0} (r : Result A) (f : A → Tx B) → ((a : A) → Keeps (f a)) → Keeps (and_then r f)
  and_then-Keeps (ok a) f keeps env db = keeps a env db
  and_then-Keeps (err e) f keeps env db = refl

  insert_event-Keeps : (e : AuditEvent) → Keeps (insert_event e)
  unfolding attempt
  insert_event-Keeps e env db = elim (Option-cases (env.fault "insert audit event" db)) [
    | inl fine ↦ rw (fine) (blind e db)
    | inr (f, failed) ↦ rw (failed) refl
  ]

  pub record_event-Keeps :
      (actor : Option Principal) (action : AuditAction) (object_type : Text) (object_id : ObjectId)
      (result : AuditResult)
      → Keeps (record_event actor action object_type object_id result)
  unfolding record_event append_audit_event
  record_event-Keeps actor action object_type object_id result env db =
      let e = event_of actor action object_type object_id result env.now in
      and_then-Keeps (validate_event e) _
        (λ u. and_then-Keeps (validate_event e) _ (λ v. insert_event-Keeps e)) env db

  pub recorded-Keeps :
      (actor : Option Principal) (action : AuditAction) (object_type : Text) (object_id : ObjectId)
      (result : AuditResult)
      → Keeps (in_tx (record_event actor action object_type object_id result))
  recorded-Keeps actor action object_type object_id result env db =
      let body = record_event actor action object_type object_id result in
      elim (in_tx_atomic body env db) [
        | inl (u, done, same) ↦
            rw done (record_event-Keeps actor action object_type object_id result env db)
        | inr (e, failed) ↦ rw failed refl
      ]
