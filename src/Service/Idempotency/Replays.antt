-- ===== src/Service/Idempotency/Replays.antt =====
-- A request that has been answered once is answered from the table.
use orientation_enrollment_p.Base.{
  ℕ, Bool, true, false, ◌≡◌, refl, ap, ◌∙◌, sym, arith, none, some, ◌==◌, ◌+◌, ◌<◌, ◌||◌, not,
  if◌then◌else◌, inl, inr, Bool-cases, then_taken, else_taken, find, any, ==_refl,
}
use orientation_enrollment_p.Base.Text.{Text, text_eq, text_eq_refl, is_empty}
use orientation_enrollment_p.Base.Time.{before}
use orientation_enrollment_p.Domain.Errors.{Error, Result, ok, err, is, Sentinel, sentinel, wrapped}
use orientation_enrollment_p.Storage.Db.{Db, Env, IdempotencyRecord, Tx, attempt}
use orientation_enrollment_p.Storage.Rules.{>>=-then, >>=-read, >>=-raise_if, attempt-ReadOnly}
use orientation_enrollment_p.Storage.Idempotency.{
  keyed, insert_record, find_idempotency_record, save_idempotency_record,
}
use orientation_enrollment_p.Security.Credentials.{Crypto}
use orientation_enrollment_p.Service.Idempotency.{
  Scope, Outcome, fingerprint, fresh, lookup, answer_stored, race_lost, after_save, record_of,
  looked_up, run_keyed, execute, idempotency_ttl,
}

abbrev pub scope_key : Scope → IdempotencyRecord → Bool
scope_key scope = keyed scope.actor_user_id scope.method scope.path scope.key

-- The table holds the answer under the scope.
abbrev Stored : Crypto → Scope → ℕ → Outcome → Db → Type 0
Stored crypto scope now o db =
    (answer : ℕ × Text) × (find (scope_key scope) db.idempotency_keys
      ≡ some (record_of crypto scope answer now))
    × (o ≡ fresh answer)

cc_error :
    {e : Error} {d : Db} {o : Outcome} {after : Db}
    → ◌≡◌ {A = Result Outcome × Db} (err e, d) (ok o, after)
    → ⊥
cc_error h = cc

answer_stored-replayed :
    (crypto : Crypto) (scope : Scope) (r : IdempotencyRecord) (env : Env) (db after : Db)
    {o : Outcome}
    → answer_stored crypto scope r env db ≡ (ok o, after)
    → o.replayed ≡ true
answer_stored-replayed crypto scope r env db after h =
    >>=-raise_if (not (text_eq r.request_fingerprint (fingerprint crypto scope))) _ _ env db h
      (λ same h1.
        >>=-raise_if (not (before env.now r.expires_at)) _ _ env db h1 (λ alive h2. ground arith))

race_lost-replayed :
    (print : Text) (e : Error) (r : Result IdempotencyRecord × Db) {o : Outcome} {after : Db}
    → race_lost print e r ≡ (ok o, after)
    → o.replayed ≡ true
race_lost-replayed print e (ok stored, db) h = ground arith
race_lost-replayed print e (err f, db) h = absurd (ground arith)

own_key :
    (crypto : Crypto) (scope : Scope) (answer : ℕ × Text) (now : ℕ)
    → scope_key scope (record_of crypto scope answer now) ≡ true
own_key crypto scope answer now =
    rw
      (
        ==_refl scope.actor_user_id,
        text_eq_refl scope.method,
        text_eq_refl scope.path,
        text_eq_refl scope.key,
      )
      refl

save_idempotency_record-ok :
    (r : IdempotencyRecord) (env : Env) (db after : Db) {u : Unit {0}}
    → save_idempotency_record r env db ≡ (ok u, after)
    → after ≡ insert_record r db
unfolding save_idempotency_record
save_idempotency_record-ok r env db after h =
    >>=-raise_if (is_empty r.key) _ _ env db h (λ some_key h1.
      >>=-raise_if (is_empty r.method || is_empty r.path) _ _ env db h1 (λ scoped h2.
        >>=-read (attempt "insert idempotency record") _ env db
          (attempt-ReadOnly "insert idempotency record") h2
          (λ u first h3.
            >>=-raise_if (any (keyed r.actor_user_id r.method r.path r.key) db.idempotency_keys) _ _
              env db h3 (λ free h4. sym (ap (λ x. x.1) h4)))))

after_save-Stored :
    (crypto : Crypto) (scope : Scope) (answer : ℕ × Text) (env : Env) (db : Db)
    (saved : Result (Unit {0}) × Db) {o : Outcome} {after : Db}
    → save_idempotency_record (record_of crypto scope answer env.now) env db ≡ saved
    → after_save crypto scope answer env saved ≡ (ok o, after)
    → o.replayed ≡ false
    → Stored crypto scope env.now o after
after_save-Stored crypto scope answer env db (ok u, d) {o} {after} done h new =
    let r = record_of crypto scope answer env.now in
    let rows : after ≡ insert_record r db =
      sym (ap (λ x. x.1) h) ∙ save_idempotency_record-ok r env db d done in
    (
      answer,
      ap (λ d. find (scope_key scope) d.idempotency_keys) rows
          ∙ rw (own_key crypto scope answer env.now) refl,
      ground arith,
    )
after_save-Stored crypto scope answer env db (err e, d) {o} {after} done h new =
    elim (Bool-cases (is e Sentinel.conflict)) [
      | inl race ↦
          let lost : o.replayed ≡ true =
            race_lost-replayed (fingerprint crypto scope) e (lookup scope env d) {o = o}
              {after = after} (sym (then_taken (is e Sentinel.conflict) _ _ race) ∙ h) in
          absurd (ground arith)
      | inr other ↦ absurd (cc_error (sym (else_taken (is e Sentinel.conflict) _ _ other) ∙ h))
    ]

looked_up-Stored :
    (crypto : Crypto) (scope : Scope) (others : Db → Db) (fn : Tx (ℕ × Text)) (env : Env)
    (found : Result IdempotencyRecord × Db) {o : Outcome} {after : Db}
    → looked_up crypto scope others fn env found ≡ (ok o, after)
    → o.replayed ≡ false
    → Stored crypto scope env.now o after
looked_up-Stored crypto scope others fn env (ok r, d) {o} {after} h new =
    let again : o.replayed ≡ true = answer_stored-replayed crypto scope r env d after h in
    absurd (ground arith)
looked_up-Stored crypto scope others fn env (err e, d) {o} {after} h new =
    elim (Bool-cases (is e Sentinel.not_found)) [
      | inl missing ↦
          >>=-then fn _ env d (sym (then_taken (is e Sentinel.not_found) _ _ missing) ∙ h)
            (λ answer d1 first later.
              after_save-Stored crypto scope answer env (others d1) _ refl later new)
      | inr other ↦ absurd (cc_error (sym (else_taken (is e Sentinel.not_found) _ _ other) ∙ h))
    ]

keyed_run :
    (crypto : Crypto) (scope : Scope) (others : Db → Db) (fn : Tx (ℕ × Text)) (env : Env)
    (db after : Db) {o : Outcome}
    → is_empty scope.key ≡ false
    → execute crypto scope others fn env db ≡ (ok o, after)
    → (run_keyed crypto scope others fn env db ≡ (ok o, after))
      × ((scope.actor_user_id == 0) ≡ false)
unfolding execute
keyed_run crypto scope others fn env db after some_key h =
    >>=-raise_if (scope.actor_user_id == 0) _ _ env db
      (ap (λ (m : Tx Outcome). m env db) (sym (else_taken (is_empty scope.key) _ _ some_key)) ∙ h)
      (λ named rest. (rest, named))

lookup-found :
    (scope : Scope) (env : Env) (db : Db) (r : IdempotencyRecord)
    → is_empty scope.key ≡ false
    → env.fault "select idempotency record" db ≡ none
    → find (scope_key scope) db.idempotency_keys ≡ some r
    → lookup scope env db ≡ (ok r, db)
unfolding find_idempotency_record attempt
lookup-found scope env db r some_key works found = rw (some_key, works, found) refl

-- What a later request under the same key meets.
keyed_again :
    (crypto : Crypto) (scope : Scope) (others : Db → Db) (fn : Tx (ℕ × Text)) (env : Env) (db : Db)
    (r : IdempotencyRecord)
    → is_empty scope.key ≡ false
    → (scope.actor_user_id == 0) ≡ false
    → env.fault "select idempotency record" db ≡ none
    → find (scope_key scope) db.idempotency_keys ≡ some r
    → execute crypto scope others fn env db ≡ answer_stored crypto scope r env db
unfolding execute
keyed_again crypto scope others fn env db r some_key named works found =
    ap (λ (m : Tx Outcome). m env db) (else_taken (is_empty scope.key) _ _ some_key)
    ∙ rw named (
        ap (looked_up crypto scope others fn env)
          (lookup-found scope env db r some_key works found))

abbrev pub with_payload : Scope → Text → Scope
with_payload scope payload = record scope { payload = payload }

answered :
    (crypto : Crypto) (scope again : Scope) (answer : ℕ × Text) (now : ℕ) (env : Env) (db : Db)
    → env.now < now + idempotency_ttl
    → answer_stored crypto again (record_of crypto scope answer now) env db ≡ (
      (if text_eq (fingerprint crypto scope) (fingerprint crypto again)
          then ok (record (fresh answer) { replayed = true })
          else err (wrapped (sentinel Sentinel.idempotency_mismatch))),
      db,
    )
answered crypto scope again answer now env db in_time =
    let alive : before env.now (now + idempotency_ttl) ≡ true = ground arith in
    elim (Bool-cases (text_eq (fingerprint crypto scope) (fingerprint crypto again))) [
      | inl e ↦ rw e (rw alive refl)
      | inr e ↦ rw e refl
    ]

-- After a request with a key has run and its answer was stored, a request of the same actor with that
-- method, path and key does not run, whatever it would do: with a payload of the same fingerprint it
-- is answered with the stored status and body, and with any other payload it is refused. The tables
-- stay as they are. It comes to the tables that the first one has left, within the lifetime of the
-- stored answer, counted from the first one's clock, and the answer can be read.
pub execute-replayed :
    (crypto : Crypto) (scope : Scope) (others : Db → Db) (fn : Tx (ℕ × Text)) (env : Env)
    (db after : Db) (o : Outcome)
    → is_empty scope.key ≡ false
    → execute crypto scope others fn env db ≡ (ok o, after)
    → o.replayed ≡ false
    → (payload : Text) (others_later : Db → Db) (again : Tx (ℕ × Text)) (later : Env)
    → later.fault "select idempotency record" after ≡ none
    → later.now < env.now + idempotency_ttl
    → execute crypto (with_payload scope payload) others_later again later after ≡ (
      (if text_eq (fingerprint crypto scope) (fingerprint crypto (with_payload scope payload))
          then ok (record o { replayed = true })
          else err (wrapped (sentinel Sentinel.idempotency_mismatch))),
      after,
    )
execute-replayed crypto scope others fn env db after o some_key done new payload others_later again
      later works in_time =
    let (ran, named) = keyed_run crypto scope others fn env db after some_key done in
    let (answer, found, same) =
      looked_up-Stored crypto scope others fn env (lookup scope env db) ran new in
    keyed_again crypto (with_payload scope payload) others_later again later after
      (record_of crypto scope answer env.now) some_key named works found
    ∙ answered crypto scope (with_payload scope payload) answer env.now later after in_time
    ∙ rw same refl
