-- ===== src/Storage/Catalog/Versions.antt =====
-- A version of a section is spent by the first seat that is claimed for it.
use orientation_enrollment_p.Base.{
  ℕ, true, ◌≡◌, refl, sym, subst, ◌≢◌, ◌≤◌, ◌<◌, ◌==◌, arith, inl, inr, All, List, [], ◌∷◌, count,
  Bool-cases,
}
use orientation_enrollment_p.Base.Time.{Time}
use orientation_enrollment_p.Domain.Catalog.{Section}
use orientation_enrollment_p.Domain.Errors.{ok}
use orientation_enrollment_p.Storage.Db.{Db, Env, SectionRow, update_where}
use orientation_enrollment_p.Storage.Rows.{All-update_where}
use orientation_enrollment_p.Storage.Rows.Keys.{count-narrower, update_where-none}
use orientation_enrollment_p.Storage.Catalog.{claim_seat, claimable, with_seat}
use orientation_enrollment_p.Storage.Catalog.Contracts.{claim_seat-ok, claim_seat-counted}
use orientation_enrollment_p.Storage.Catalog.Counters.{
  Update, claim, release, adjust, Updates, none_yet, then_one,
}

-- A row of the section, if it is one, has a later version.
abbrev Past : ℕ → ℕ → SectionRow → Type 0
Past id version r = r.id ≡ id → version < r.version

no_row-Past :
    (id version : ℕ) (rows : List SectionRow)
    → count (λ r. r.id == id) rows ≡ 0
    → All (Past id version) rows
no_row-Past id version [] h = tt
no_row-Past id version (r ∷ rows) h =
    (λ same. absurd (ground arith), no_row-Past id version rows (ground arith))

claimable-id :
    (id version : ℕ) (r : SectionRow) → claimable id version r ≡ true → (r.id == id) ≡ true
claimable-id id version r h = ground arith

claimed-Past :
    (id version : ℕ) (at : Time) (rows : List SectionRow)
    → count (λ r. r.id == id) rows ≤ 1
    → count (claimable id version) rows ≢ 0
    → All (Past id version) (update_where (claimable id version) (with_seat at) rows)
unfolding update_where
claimed-Past id version at [] one some_row = absurd (ground arith)
claimed-Past id version at (r ∷ rows) one some_row =
    let key = λ (r : SectionRow). r.id == id in
    let none_left = λ (gone : count key rows ≡ 0).
      count-narrower key (claimable id version) rows (claimable-id id version) gone in
    elim (Bool-cases (claimable id version r)) [
      | inl e ↦
          let gone : count key rows ≡ 0 = ground arith in
          let same =
            update_where-none (claimable id version) (with_seat at) rows (none_left gone) in
          rw (e, same) (λ named. ground arith, no_row-Past id version rows gone)
      | inr e ↦
          let rest = claimed-Past id version at rows (ground arith) (ground arith) in
          rw e (λ named. absurd (ground (arith, none_left)), rest)
    ]

Update-Past :
    (id version : ℕ) {before after : List SectionRow}
    → Update before after
    → All (Past id version) before
    → All (Past id version) after
Update-Past id version (claim rows other v at) h =
    All-update_where (Past id version) _ _ rows (λ r p e named. ground (arith, p named)) h
Update-Past id version (release rows other v at) h =
    All-update_where (Past id version) _ _ rows (λ r p e named. ground (arith, p named)) h
Update-Past id version (adjust rows other delta at) h =
    All-update_where (Past id version) _ _ rows (λ r p e named. ground (arith, p named)) h

Updates-Past :
    (id version : ℕ) {start rows : List SectionRow}
    → Updates start rows
    → All (Past id version) start
    → All (Past id version) rows
Updates-Past id version none_yet h = h
Updates-Past id version (then_one us u) h = Update-Past id version u (Updates-Past id version us h)

Past-spent :
    (id version : ℕ) (rows : List SectionRow)
    → All (Past id version) rows
    → count (claimable id version) rows ≡ 0
Past-spent id version [] h = refl
Past-spent id version (r ∷ rows) h = elim (Bool-cases (claimable id version r)) [
  | inl e ↦
      let named : r.id ≡ id = ground arith in
      let same : r.version ≡ version = ground arith in absurd (omega (arith, h.0 named, same))
  | inr e ↦ ground (arith, Past-spent id version rows h.1)
]

-- A version is good for one seat: once a seat of a section has been claimed for a version, no claim
-- for that version succeeds any more, whichever client makes it, however the driver behaves, and
-- whatever statements of other clients have changed the counters since. Section keys are unique.
pub claim_seat-once :
    (id version : ℕ) (at later : Time) (env other : Env) (db after now final : Db) {s t : Section}
    → count (λ r. r.id == id) db.sections ≤ 1
    → claim_seat id version at env db ≡ (ok s, after)
    → Updates after.sections now.sections
    → claim_seat id version later other now ≢ (ok t, final)
claim_seat-once id version at later env other db after now final one h since k =
    let past =
      claimed-Past id version at db.sections one
        (claim_seat-counted id version at env db after h) in
    let moved =
      subst (λ d. All (Past id version) d.sections)
        (sym (claim_seat-ok id version at env db after h).0) past in
    claim_seat-counted id version later other now final k
      (Past-spent id version now.sections (Updates-Past id version since moved))
