-- ===== src/Storage/Consistency/Steps.antt =====
-- One statement on a section, as its counters see it: the row with the key changes, and no other.
use orientation_enrollment_p.Base.{
  ℕ, Bool, true, false, ◌≡◌, sym, ap, subst, ◌∙◌, ◌≢◌, inl, inr, ◌<◌, ◌≤◌, ◌==◌, some, Option-cases,
  Bool-cases, count, arith, List, ◌⊎◌, All,
}
use orientation_enrollment_p.Domain.Errors.{ok}
use orientation_enrollment_p.Storage.Db.{Db, Env, Tx, SectionRow, update_where}
use orientation_enrollment_p.Storage.Transactions.{in_tx}
use orientation_enrollment_p.Storage.Transactions.Atomic.{in_tx_atomic}
use orientation_enrollment_p.Storage.Transactions.Records.{SameSeats}
use orientation_enrollment_p.Storage.Consistency.{Consistent}
use orientation_enrollment_p.Storage.Catalog.{find_row}
use orientation_enrollment_p.Storage.Rows.{find-update_where}
use orientation_enrollment_p.Storage.Rows.Keys.{find-passes, find-narrower, count-update_where_same}

-- The row of a section before and after a statement on the section `id`.
pub record RowStep (id k : ℕ) (test : SectionRow → Bool) (change : SectionRow → SectionRow)
    (rows : List SectionRow) (after : SectionRow) : Type 0 where
  pub before : SectionRow
  pub found : find_row k rows ≡ some before
  pub moved :
      (((id == k) ≡ true) × (test before ≡ true) × (after ≡ change before))
      ⊎ (((id == k) ≡ false) × (after ≡ before))

module _ (id : ℕ) (test : SectionRow → Bool) (change : SectionRow → SectionRow)
    (narrower : (r : SectionRow) → test r ≡ true → (r.id == id) ≡ true)
    (keeps : (r : SectionRow) → (change r).id ≡ r.id) (rows : List SectionRow)
    (one : (k : ℕ) → count (λ r. r.id == k) rows ≤ 1) where
  pub row_step :
      count test rows ≢ 0
      → (k : ℕ) (after : SectionRow) → find_row k (update_where test change rows) ≡ some after
      → RowStep id k test change rows after
  row_step some_pass k after h = elim (Option-cases (find_row k rows)) [
    | inl absent ↦
        let e =
          find-update_where (λ r. r.id == k) test change rows (λ r. ground (arith, keeps r)) in
        absurd (ground arith)
    | inr (r, found) ↦
        let e =
          find-update_where (λ r. r.id == k) test change rows (λ r. ground (arith, keeps r)) in
        record {
          before = r;
          found = found;
          moved = elim (Bool-cases (id == k)) [
            | inl same ↦
                let passes =
                  find-narrower (λ r. r.id == k) test rows {x = r}
                    (λ r p. ground (arith, narrower r)) (one k) found some_pass in
                inl (same, passes, ground arith)
            | inr other ↦
                let key = find-passes (λ r. r.id == k) rows {x = r} found in
                inr (other, ground (arith, narrower r))
          ];
        }
  ]

  pub one_step : (k : ℕ) → count (λ r. r.id == k) (update_where test change rows) ≤ 1
  one_step k =
      let e =
        count-update_where_same test (λ r. r.id == k) change rows (λ r. ground (arith, keeps r)) in
      omega (arith, one k, e)

pub Consistent-SameSeats : (db after : Db) → SameSeats db after → Consistent db → Consistent after
Consistent-SameSeats db after same fine = record {
  one_section = λ k. rw same.sections (fine.one_section k);
  one_enrollment = λ k. rw same.enrollments (fine.one_enrollment k);
  fresh =
      subst (λ n. All (λ e. e.id < n) after.enrollments) (sym same.next_enrollment_id)
        (rw same.enrollments fine.fresh);
  limits = rw same.sections fine.limits;
  seats = λ k r found.
      rw same.enrollments
        (fine.seats k r (sym (ap (λ rows. find_row k rows) same.sections) ∙ found));
  waitlist = λ k r found.
      rw same.enrollments
        (fine.waitlist k r (sym (ap (λ rows. find_row k rows) same.sections) ∙ found));
}

-- A transaction whose body keeps the tables consistent when it returns a value keeps them so in
-- every case.
pub in_tx-Consistent :
    {A : Type 0} (m : Tx A) (env : Env) (db : Db)
    → Consistent db
    → ((a : A) (after : Db) → m env db ≡ (ok a, after) → Consistent after)
    → Consistent (in_tx m env db).1
in_tx-Consistent m env db fine keeps = elim (in_tx_atomic m env db) [
  | inl (a, done, body) ↦ rw done (keeps a (m env db).1 (ap (λ r. (r, (m env db).1)) body))
  | inr (e, failed) ↦ rw failed fine
]
