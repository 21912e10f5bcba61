-- ===== src/Storage/Migrations/Reruns.antt =====
-- A database that has been brought up to date stays so.
use orientation_enrollment_p.Base.{
  ℕ, then_taken, else_taken, true, ◌≡◌, refl, ap, ◌∙◌, sym, subst, arith, inl, inr, Option, none,
  Option-cases, some, List, [], ◌∷◌, All, ==_refl, length, Bool-cases,
}
use orientation_enrollment_p.Base.Text.{Text}
use orientation_enrollment_p.Domain.Errors.{Error, Result, ok, err}
use orientation_enrollment_p.Security.Credentials.{Crypto}
use orientation_enrollment_p.Storage.Migrations.{
  Migration, File, Applied, Database, Outcome, contiguous, all_migrations, check_applied,
  is_applied, apply_migration, apply_missing, migrate, and_rest, noting, outcome, checked,
  migrate_to, Access, answered, created,
}
use orientation_enrollment_p.Storage.Migrations.Shipped.{
  all_migrations-contiguous, all_Placed, Sound, Ships, all_Ships, check_applied-ok,
  check_applied-passes,
}

later_there :
    (v : ℕ) (m : Migration) (rows : List Applied)
    → is_applied v rows ≡ true
    → is_applied v ((m.version, m.checksum) ∷ rows) ≡ true
later_there v m rows there = ground arith

module _ {S : Type 0} (run : Text → S → Result S) (commit : ℕ → Option Error) where
  -- What a run of the loop leaves in the record of applied versions.
  record Advanced (all ms : List Migration) (db after : Database S) : Type 0 where
    shipped_rows : All (Sound all) db.applied → All (Sound all) after.applied
    grown : (v : ℕ) → is_applied v db.applied ≡ true → is_applied v after.applied ≡ true
    present : All (λ m. is_applied m.version after.applied ≡ true) ms

  apply_migration-ok :
      (m : Migration) (db after : Database S)
      → apply_migration run commit m db ≡ (ok tt, after)
      → after.applied ≡ (m.version, m.checksum) ∷ db.applied
  unfolding apply_migration
  apply_migration-ok m db after h = ground arith

  noting-ok :
      (version : ℕ) (q : Result (List ℕ) × Database S) {vs : List ℕ} {after : Database S}
      → noting run commit version q ≡ (ok vs, after)
      → (ws : List ℕ) × (q ≡ (ok ws, after))
  noting-ok version (ok ws, d) h = (ws, ap (λ x. (ok ws, x)) (ap (λ x. x.1) h))
  noting-ok version (err e, d) h = absurd (ground arith)

  and_rest-ok :
      (m : Migration) (rest : Database S → Result (List ℕ) × Database S)
      (r : Result (Unit {0}) × Database S) {vs : List ℕ} {after : Database S}
      → and_rest run commit m rest r ≡ (ok vs, after)
      → (d : Database S) × (ws : List ℕ) × (r ≡ (ok tt, d)) × (rest d ≡ (ok ws, after))
  and_rest-ok m rest (ok u, d) h =
      let (ws, went_on) = noting-ok m.version (rest d) h in (d, ws, refl, went_on)
  and_rest-ok m rest (err e, d) h = absurd (ground arith)

  apply_missing-Advanced :
      (all : List Migration) (before : List Applied) (ms : List Migration) (db after : Database S)
      {vs : List ℕ}
      → All (Ships all) ms
      → ((v : ℕ) → is_applied v before ≡ true → is_applied v db.applied ≡ true)
      → apply_missing run commit before ms db ≡ (ok vs, after)
      → Advanced all ms db after
  unfolding apply_missing
  apply_missing-Advanced all before [] db after ships known h =
      let same : db ≡ after = ap (λ r. r.1) h in
      record {
        shipped_rows = subst (λ d. All (Sound all) d.applied) same;
        grown = λ v there. subst (λ d. is_applied v d.applied ≡ true) same there;
        present = tt;
      }
  apply_missing-Advanced all before (m ∷ ms) db after {vs} ships known h =
      elim (Bool-cases (is_applied m.version before)) [
        | inl e ↦
            let rest =
              apply_missing-Advanced all before ms db after {vs = vs} ships.1 known
                (sym (then_taken (is_applied m.version before) _ _ e) ∙ h) in
            record {
              shipped_rows = rest.shipped_rows;
              grown = rest.grown;
              present = (rest.grown m.version (known m.version e), rest.present);
            }
        | inr e ↦
            let (d, ws, done, went_on) =
              and_rest-ok m (apply_missing run commit before ms) (apply_migration run commit m db)
                {vs = vs} {after = after}
                (sym (else_taken (is_applied m.version before) _ _ e) ∙ h) in
            let rows = apply_migration-ok m db d done in
            let grow = λ (v : ℕ) (there : is_applied v db.applied ≡ true).
              ap (is_applied v) rows ∙ later_there v m db.applied there in
            let here : is_applied m.version d.applied ≡ true =
              ap (is_applied m.version) rows ∙ rw (==_refl m.version) refl in
            let rest =
              apply_missing-Advanced all before ms d after {vs = ws} ships.1
                (λ v there. grow v (known v there)) went_on in
            record {
              shipped_rows = λ rows_ship. rest.shipped_rows (rw rows (ships.0, rows_ship));
              grown = λ v there. rest.grown v (grow v there);
              present = (rest.grown m.version here, rest.present);
            }
      ]

  -- Where every version is applied the loop does nothing.
  nothing_missing :
      (before : List Applied) (ms : List Migration) (db : Database S)
      → All (λ m. is_applied m.version before ≡ true) ms
      → apply_missing run commit before ms db ≡ (ok [], db)
  unfolding apply_missing
  nothing_missing before [] db h = refl
  nothing_missing before (m ∷ ms) db h = rw (h.0) (nothing_missing before ms db h.1)

  outcome-ok :
      (latest : ℕ) (q : Result (List ℕ) × Database S) {o : Outcome} {after : Database S}
      → outcome run commit latest q ≡ (ok o, after)
      → (vs : List ℕ) × (q ≡ (ok vs, after)) × (o.version ≡ latest)
  outcome-ok latest (ok vs, d) h = (vs, ap (λ x. (ok vs, x)) (ap (λ x. x.1) h), ground arith)
  outcome-ok latest (err e, d) h = absurd (ground arith)

  answered-ok :
      (r : Result Outcome × Database S) {o : Outcome} {after : Database S}
      → answered run commit r ≡ (some (ok o), after)
      → r ≡ (ok o, after)
  answered-ok (r, d) h = ground arith

  checked-ok :
      (all : List Migration) (db : Database S) (r : Option (Result (Unit {0}))) {o : Outcome}
      {after : Database S}
      → checked run commit all db r ≡ (some (ok o), after)
      → (r ≡ some (ok tt))
        × (outcome run commit (length all) (apply_missing run commit db.applied all db)
            ≡ (ok o, after))
  checked-ok all db none h = absurd (ground arith)
  checked-ok all db (some (ok u)) h = (
    refl,
    answered-ok (outcome run commit (length all) (apply_missing run commit db.applied all db)) h,
  )
  checked-ok all db (some (err e)) h = absurd (ground arith)

  -- A run that succeeds has come to the check.
  created-ok :
      (access : Access) (all : List Migration) (db : Database S) {o : Outcome} {after : Database S}
      → created run commit access all db access.create ≡ (some (ok o), after)
      → checked run commit all db (check_applied all db.applied) ≡ (some (ok o), after)
  created-ok access all db h = elim (Option-cases access.create) [
    | inr (e, failed) ↦ absurd (ground arith)
    | inl fine ↦ elim (Option-cases access.load) [
      | inr (e, failed) ↦ absurd (ground arith)
      | inl read ↦ ground arith
    ]
  ]

  -- What a database that is up to date answers.
  abbrev pub current : ℕ → Outcome
  current version = record { applied = []; already_current = true; version = version }

  rerun :
      (access again : Access) (all : List Migration) (db after : Database S) {o : Outcome}
      → contiguous 1 all ≡ true
      → again.create ≡ none
      → again.load ≡ none
      → migrate_to run commit access (ok all) db ≡ (some (ok o), after)
      → migrate_to run commit again (ok all) after ≡ (some (ok (current o.version)), after)
  rerun access again all db after {o} counted creates loads h =
      let (fine, ran) =
        checked-ok all db (check_applied all db.applied) {o = o} {after = after}
          (created-ok access all db {o = o} {after = after} h) in
      let (vs, done, version) =
        outcome-ok (length all) (apply_missing run commit db.applied all db) {o = o} {after = after}
          ran in
      let advanced =
        apply_missing-Advanced all db.applied all db after {vs = vs}
          (all_Ships all all (all_Placed 0 all counted)) (λ v there. there) done in
      rw
        (
          creates,
          loads,
          check_applied-passes all after.applied
              (advanced.shipped_rows (check_applied-ok all db.applied fine)),
          nothing_missing after.applied all after advanced.present,
          version,
        )
        refl

  migrated :
      (access again : Access) (r : Result (List Migration)) (db after : Database S) {o : Outcome}
      → ((all : List Migration) → r ≡ ok all → contiguous 1 all ≡ true)
      → again.create ≡ none
      → again.load ≡ none
      → migrate_to run commit access r db ≡ (some (ok o), after)
      → migrate_to run commit again r after ≡ (some (ok (current o.version)), after)
  migrated access again (ok all) db after {o} counted creates loads h =
      rerun access again all db after {o = o} (counted all refl) creates loads h
  migrated access again (err e) db after counted creates loads h = absurd (ground arith)

  -- After a run that succeeds, the next run of the same files, in which the table of versions can be
  -- created and read, changes nothing: it applies no migration, says that the database is current,
  -- and reports the same version.
  pub migrate-again :
      (access again : Access) (crypto : Crypto) (files : List File) (db after : Database S)
      (o : Outcome)
      → migrate run commit access crypto files db ≡ (some (ok o), after)
      → again.create ≡ none
      → again.load ≡ none
      → migrate run commit again crypto files after ≡ (some (ok (current o.version)), after)
  unfolding migrate
  migrate-again access again crypto files db after o h creates loads =
      migrated access again (all_migrations crypto files) db after {o = o}
        (all_migrations-contiguous crypto files) creates loads h
