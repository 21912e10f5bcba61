-- ===== src/Service/Registration/Finality.antt =====
-- Decisions are final: what a history of transactions does to verified paperwork.
use orientation_enrollment_p.Base.{
  ℕ, suc, Bool, true, false, ◌≡◌, ◌≢◌, refl, ap, ◌∙◌, sym, subst, inl, inr, ◌==◌, ◌<◌, ◌≤◌, ◌+◌,
  arith, some, List, [], ◌∷◌, find, count, All, if◌then◌else◌, Bool-cases, ==_refl,
}
use mathlib.Core.Option
use orientation_enrollment_p.Base.Time.{Time}
use orientation_enrollment_p.Domain.Errors.{ok}
use orientation_enrollment_p.Domain.Identity.{Principal}
use orientation_enrollment_p.Domain.Registration.{Registration, verified}
use orientation_enrollment_p.Storage.Db.{Db, Env, Tx, update_where}
use orientation_enrollment_p.Storage.Rows.{All-update_where, find-update_where}
use orientation_enrollment_p.Storage.Rows.Keys.{count-update_where_same, find-by_key, find-passes}
use orientation_enrollment_p.Storage.Registrations.{at_version, with_record}
use orientation_enrollment_p.Storage.Transactions.{in_tx}
use orientation_enrollment_p.Storage.Transactions.Atomic.{in_tx_atomic}
use orientation_enrollment_p.Service.Registration.{
  SubmitInput, submit_once, DecideInput, decide_once,
}
use orientation_enrollment_p.Service.Registration.Upserts.{
  Filing, submit_once-Filing, decide_once-Filing,
}

-- Every record has a key of its own, below the next one and above 0.
pub record Filed (db : Db) : Type 0 where
  pub unique : (k : ℕ) → count (λ r. r.id == k) db.registrations ≤ 1
  pub fresh : All (λ r. r.id < db.next_registration_id) db.registrations

-- Verified records are found unchanged.
abbrev pub KeepsVerified : Db → Db → Type 0
KeepsVerified db after =
    (k : ℕ) (v : Registration)
    → find (λ r. r.id == k) db.registrations ≡ some v
    → v.status ≡ verified
    → find (λ r. r.id == k) after.registrations ≡ some v

none_at :
    (n : ℕ) (rows : List Registration) → All (λ r. r.id < n) rows → count (λ r. r.id == n) rows ≡ 0
none_at n [] h = refl
none_at n (r ∷ rows) h = ground (arith, none_at n rows)

below_next :
    (n : ℕ) (rows : List Registration) → All (λ r. r.id < n) rows → All (λ r. r.id < suc n) rows
below_next n [] h = tt
below_next n (r ∷ rows) h = (omega (arith, h.0), below_next n rows h.1)

found_below :
    (n k : ℕ) (rows : List Registration) (v : Registration)
    → All (λ r. r.id < n) rows
    → find (λ r. r.id == k) rows ≡ some v
    → k < n
found_below n k [] v h found = absurd (ground arith)
found_below n k (r ∷ rows) v h found = elim (Bool-cases (r.id == k)) [
  | inl e ↦ ground arith
  | inr e ↦ found_below n k rows v h.1 (ground arith)
]

one_more :
    (n k : ℕ) (rows : List Registration)
    → All (λ r. r.id < n) rows
    → count (λ r. r.id == k) rows ≤ 1
    → (if n == k then 1 else 0) + count (λ r. r.id == k) rows ≤ 1
one_more n k rows low one = elim (Bool-cases (n == k)) [
  | inl e ↦
      let same : n ≡ k = ground arith in
      let absent = subst (λ m. count (λ r. r.id == m) rows ≡ 0) same (none_at n rows low) in
      rw e (omega (arith, absent))
  | inr e ↦ rw e (omega arith)
]

inserted :
    (r : Registration) (db after : Db)
    → Filed db
    → after.registrations
      ≡ record r { id = db.next_registration_id; version = 1 } ∷ db.registrations
    → after.next_registration_id ≡ suc db.next_registration_id
    → Filed after × KeepsVerified db after
inserted r db after filed rows key = (
  record {
    unique = λ k.
        rw rows (one_more db.next_registration_id k db.registrations filed.fresh (filed.unique k));
    fresh =
        subst (λ n. All (λ q. q.id < n) after.registrations) (sym key)
          (rw rows (omega arith, below_next db.next_registration_id db.registrations filed.fresh));
  },
  λ k v found final.
      let low = found_below db.next_registration_id k db.registrations v filed.fresh found in
      rw rows (ground arith),
)

-- A verified row is not the one that the transaction started from.
not_current :
    (c r v : Registration) (k : ℕ) (rows : List Registration)
    → find (λ q. q.id == c.id) rows ≡ some c
    → (v.id == k) ≡ true
    → find (λ q. q.id == k) rows ≡ some v
    → c.status ≢ verified
    → r.id ≡ c.id
    → v.status ≡ verified
    → at_version r v ≡ false
not_current c r v k rows own there found undecided same final = elim (Bool-cases (v.id == c.id)) [
  | inl e ↦
      let key : c.id ≡ k = ground arith in
      let twin : some v ≡ some c =
        sym found ∙ ap (λ n. find (λ q. q.id == n) rows) (sym key) ∙ own in
      absurd (ground arith)
  | inr e ↦ ground arith
]

updated :
    (c r : Registration) (db after : Db)
    → Filed db
    → (test : Registration → Bool) → find test db.registrations ≡ some c
    → c.status ≢ verified
    → r.id ≡ c.id
    → after.registrations ≡ update_where (at_version r) (with_record r) db.registrations
    → after.next_registration_id ≡ db.next_registration_id
    → Filed after × KeepsVerified db after
updated c r db after filed test known undecided same rows key = (
  record {
    unique = λ k. rw rows (
        omega (
          arith,
          filed.unique k,
          count-update_where_same (at_version r) (λ q. q.id == k) (with_record r) db.registrations
              (λ q. refl),
        ));
    fresh =
        rw (rows, key)
          (All-update_where (λ q. q.id < db.next_registration_id) (at_version r) (with_record r)
            db.registrations (λ q low hit. low) filed.fresh);
  },
  λ k v found final.
      let own =
        find-by_key test (λ q. q.id == c.id) db.registrations known (==_refl c.id)
          (filed.unique c.id) in
      let there = find-passes (λ q. q.id == k) db.registrations {x = v} found in
      let other : at_version r v ≡ false =
        not_current c r v k db.registrations own there found undecided same final in
      rw rows (
        find-update_where (λ q. q.id == k) (at_version r) (with_record r) db.registrations
          (λ q. refl)
        ∙ ap (Option.map (λ q. if at_version r q then with_record r q else q)) found
        ∙ rw other refl),
)

file_step : (db after : Db) → Filed db → Filing db after → Filed after × KeepsVerified db after
file_step db after filed f = elim f.stored [
  | inl (new, rows, key) ↦ inserted f.written db after filed rows key
  | inr (old, rows, key) ↦ elim f.known [
    | inl blank ↦ absurd (ground (arith, f.same_id))
    | inr (test, known) ↦
        updated f.current f.written db after filed test known f.undecided f.same_id rows key
  ]
]

-- Transactions of the paperwork one after the other, whoever makes them and however they end.
pub data Papers (db : Db) : Db → Type 0 where
  no_papers : Papers db db
  then_submit :
      {d : Db}
      → Papers db d
      → (actor : Principal) (i : SubmitInput) (now : Time) (env : Env)
      → Papers db (in_tx (submit_once actor i now) env d).1
  then_decide :
      {d : Db}
      → Papers db d
      → (actor : Principal) (i : DecideInput) (now : Time) (env : Env)
      → Papers db (in_tx (decide_once actor i now) env d).1

tx_step :
    (m : Tx Registration) (env : Env) (db : Db)
    → ((s : Registration) (after : Db) → m env db ≡ (ok s, after) → Filing db after)
    → Filed db
    → Filed (in_tx m env db).1 × KeepsVerified db (in_tx m env db).1
tx_step m env db filing filed = elim (in_tx_atomic m env db) [
  | inl (s, done, value) ↦
      rw done (
        file_step db (m env db).1 filed (filing s (m env db).1 (ap (λ r. (r, (m env db).1)) value)))
  | inr (e, failed) ↦ rw failed (filed, λ k v found final. found)
]

-- However submissions and decisions follow each other, a record that is verified stays as it was
-- verified, in every field, and records keep distinct keys.
pub Papers-final :
    {db after : Db} → Papers db after → Filed db → Filed after × KeepsVerified db after
Papers-final no_papers filed = (filed, λ k v found final. found)
Papers-final (then_submit {d} before actor i now env) filed =
    let (there, kept) = Papers-final before filed in
    let (filed_after, keeps) =
      tx_step (submit_once actor i now) env d (λ s a h. submit_once-Filing actor i now env d a h)
        there in
    (filed_after, λ k v found final. keeps k v (kept k v found final) final)
Papers-final (then_decide {d} before actor i now env) filed =
    let (there, kept) = Papers-final before filed in
    let (filed_after, keeps) =
      tx_step (decide_once actor i now) env d (λ s a h. decide_once-Filing actor i now env d a h)
        there in
    (filed_after, λ k v found final. keeps k v (kept k v found final) final)
