-- ===== src/Storage/Transactions/Atomic.antt =====
-- Transactions are all or nothing.
use orientation_enrollment_p.Base.{◌≡◌, refl, arith, ◌⊎◌, inl, inr, Option-cases}
use orientation_enrollment_p.Domain.Errors.{Error, Result, ok, err, wrapped, joined}
use orientation_enrollment_p.Storage.Db.{Db, Env, Tx, fault_error}
use orientation_enrollment_p.Storage.Transactions.{close_tx, in_tx}

close_tx_cases :
    {A : Type 0} (env : Env) (before : Db) (r : Result A × Db)
    → ((a : A) × (close_tx env before r ≡ (ok a, r.1)) × (r.0 ≡ ok a))
      ⊎ ((e : Error) × (close_tx env before r ≡ (err e, before)))
close_tx_cases env before (ok a, after) = elim (Option-cases (env.fault "commit" after)) [
  | inl fine ↦ inl (a, rw fine, refl)
  | inr (f, failed) ↦ inr (wrapped (fault_error f), rw failed)
]
close_tx_cases env before (err e, after) = elim (Option-cases (env.fault "rollback" after)) [
  | inl fine ↦ inr (e, rw fine)
  | inr (f, failed) ↦ inr (joined e (wrapped (fault_error f)), rw failed)
]

-- A transaction that returns a value has run its body to the end and keeps all that the body wrote;
-- one that returns an error, at the beginning, in the body or at the commit, leaves the tables as
-- they were.
pub in_tx_atomic :
    {A : Type 0} (m : Tx A) (env : Env) (db : Db)
    → ((a : A) × (in_tx m env db ≡ (ok a, (m env db).1)) × ((m env db).0 ≡ ok a))
      ⊎ ((e : Error) × (in_tx m env db ≡ (err e, db)))
unfolding in_tx
in_tx_atomic m env db = elim (Option-cases (env.fault "begin" db)) [
  | inl fine ↦ rw (fine, in_tx) (close_tx_cases env db (m env db))
  | inr (f, failed) ↦ inr (wrapped (fault_error f), rw (failed, in_tx))
]

-- The body of a transaction that returned a value.
pub in_tx-ok :
    {A : Type 0} (m : Tx A) (env : Env) (db after : Db) {a : A}
    → in_tx m env db ≡ (ok a, after)
    → m env db ≡ (ok a, after)
in_tx-ok m env db after h = elim (in_tx_atomic m env db) [
  | inl (b, done, value) ↦ ground arith
  | inr (e, failed) ↦ absurd (ground arith)
]
