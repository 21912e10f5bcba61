-- ===== src/Service/Enrollment/Histories.antt =====
-- Any interleaving of the use cases' transactions. The database runs one write transaction at a time
-- (`_txlock=immediate`), so that a history of concurrent calls is a sequence of their transactions.
use orientation_enrollment_p.Base.{ℕ, String, Bool, ◌≡◌, subst, inl, inr, sym}
use orientation_enrollment_p.Base.Text.{Text}
use orientation_enrollment_p.Base.Time.{Time}
use orientation_enrollment_p.Domain.Errors.{Error, ok}
use orientation_enrollment_p.Domain.Identity.{Principal}
use orientation_enrollment_p.Domain.Audit.{AuditAction}
use orientation_enrollment_p.Storage.Db.{Db, Env}
use orientation_enrollment_p.Storage.Transactions.{in_tx}
use orientation_enrollment_p.Storage.Consistency.{Consistent}
use orientation_enrollment_p.Storage.Consistency.Steps.{in_tx-Consistent}
use orientation_enrollment_p.Service.Rejections.{record_rejection}
use orientation_enrollment_p.Service.Rejections.Seats.{record_rejection-Consistent}
use orientation_enrollment_p.Service.Enrollment.Claim.{Request, claim_once}
use orientation_enrollment_p.Service.Enrollment.Drop.{drop_once}
use orientation_enrollment_p.Service.Enrollment.Promotion.{promote_once}
use orientation_enrollment_p.Service.Enrollment.Claims.{claim_once-Consistent}
use orientation_enrollment_p.Service.Enrollment.Drops.{drop_once-Consistent}
use orientation_enrollment_p.Service.Enrollment.Moves.{Moved-Consistent}
use orientation_enrollment_p.Service.Enrollment.Promotions.{promote_once_cases}

-- One transaction of any use case, by anyone, at any time, with any failures of the driver.
pub data Transaction : Db → Db → Type 0 where
  claiming :
      (actor : Principal) (req : Request) (env : Env) (db : Db)
      → Transaction db (in_tx (claim_once actor req) env db).1
  dropping :
      (actor : Principal) (id : ℕ) (reason : Text) (now : Time) (env : Env) (db : Db)
      → Transaction db (in_tx (drop_once actor id reason now) env db).1
  promoting :
      (id : ℕ) (now : Time) (env : Env) (db : Db)
      → Transaction db (in_tx (promote_once id now) env db).1
  rejecting :
      (actor : Principal) (action : AuditAction) (object_type : String) (object_id : ℕ)
      (cause : Error) (env : Env) (db : Db)
      → Transaction db (record_rejection actor action object_type object_id cause env db)

pub data History (start : Db) : Db → Type 0 where
  nothing_yet : History start start
  then_one :
      {before after : Db} → History start before → Transaction before after → History start after

promote_once-Consistent :
    (id : ℕ) (now : Time) (env : Env) (db after : Db) {done : Bool}
    → Consistent db
    → promote_once id now env db ≡ (ok done, after)
    → Consistent after
promote_once-Consistent id now env db after {done} fine h =
    elim (promote_once_cases id now env db after {done = done} fine h) [
      | inl (idle, same) ↦ subst Consistent (sym same) fine
      | inr (done, p) ↦ Moved-Consistent p.head p.seated db after fine p.moved
    ]

Transaction-Consistent :
    {before after : Db} → Transaction before after → Consistent before → Consistent after
Transaction-Consistent (claiming actor req env db) fine =
    in_tx-Consistent (claim_once actor req) env db fine
      (λ r after h. claim_once-Consistent actor req env db after {r = r} fine h)
Transaction-Consistent (dropping actor id reason now env db) fine =
    in_tx-Consistent (drop_once actor id reason now) env db fine
      (λ e after h. drop_once-Consistent actor id reason now env db after {e = e} fine h)
Transaction-Consistent (promoting id now env db) fine =
    in_tx-Consistent (promote_once id now) env db fine
      (λ done after h. promote_once-Consistent id now env db after {done = done} fine h)
Transaction-Consistent (rejecting actor action object_type object_id cause env db) fine =
    record_rejection-Consistent actor action object_type object_id cause env db fine

-- However the transactions of claims, drops, promotions and recorded rejections interleave, and
-- whichever of them fail, consistent tables stay consistent: keys are unique, no section is beyond its
-- limits, and every section has as many seats taken and places on its waitlist as claims say.
pub History-Consistent : {start db : Db} → History start db → Consistent start → Consistent db
History-Consistent nothing_yet fine = fine
History-Consistent (then_one hs t) fine = Transaction-Consistent t (History-Consistent hs fine)
