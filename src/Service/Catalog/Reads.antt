-- ===== src/Service/Catalog/Reads.antt =====
-- Who may read what, and which term is the current one.
use orientation_enrollment_p.Base.{
  ℕ, Bool, true, false, not, ◌&&◌, ◌≡◌, ◌≢◌, refl, ap, ◌∙◌, sym, subst, first_of, ◌⊎◌, arith, inl,
  inr, Option, none, some, List, [], ◌∷◌, find, keep, count, All, Bool-cases,
}
use orientation_enrollment_p.Base.Sort.{order_by}
use orientation_enrollment_p.Base.Sort.Counts.{count-order_by, All-order_by, All-keep}
use orientation_enrollment_p.Domain.Errors.{ok, err, wrapped, sentinel, forbidden}
use orientation_enrollment_p.Domain.Identity.{Principal, registrar, role_eq}
use orientation_enrollment_p.Domain.Audit.{AuditFilter}
use orientation_enrollment_p.Domain.Catalog.{Term, enrollment_open}
use orientation_enrollment_p.Domain.Registration.{RegistrationStatus}
use orientation_enrollment_p.Domain.Query.{PageRequest}
use orientation_enrollment_p.Storage.Db.{Db, Env, attempt}
use orientation_enrollment_p.Storage.Rows.Keys.{find-passes}
use orientation_enrollment_p.Storage.Rules.{>>=-read, >>=-then, attempt-ReadOnly}
use orientation_enrollment_p.Storage.Catalog.Listing.{list_terms, newest_first}
use orientation_enrollment_p.Service.Rejections.{require_role}
use orientation_enrollment_p.Service.Registration.{
  DecideInput, decide_registration, registration_queue,
}
use orientation_enrollment_p.Service.Catalog.{roster, audit_trail, current_term, or_first}

not_registrar : (p : Principal) → p.role ≢ registrar → role_eq p.role registrar ≡ false
not_registrar p other = ground arith

-- A caller who is no registrar is refused the roster of a section, the trail, the queue of paperwork
-- and decisions on it: each call answers that it is forbidden, and changes nothing.
pub registrar_only :
    (actor : Principal)
    → actor.role ≢ registrar
    → (section_id term_id : ℕ) (filter : AuditFilter) (status : Option RegistrationStatus)
      (page : PageRequest) (i : DecideInput) (env : Env) (db : Db)
    → (roster actor section_id page env db ≡ (err (wrapped (sentinel forbidden)), db))
      × (audit_trail actor filter page env db ≡ (err (wrapped (sentinel forbidden)), db))
      × (registration_queue actor term_id status page env db
          ≡ (err (wrapped (sentinel forbidden)), db))
      × (decide_registration actor i env db ≡ (err (wrapped (sentinel forbidden)), db))
unfolding roster audit_trail registration_queue decide_registration require_role
registrar_only actor other section_id term_id filter status page i env db =
    let e = not_registrar actor other in (rw e refl, rw e refl, rw e refl, rw e refl)

count-keep_both :
    (p q : Term → Bool) (xs : List Term) → count p (keep q xs) ≡ count (λ t. q t && p t) xs
count-keep_both p q [] = refl
count-keep_both p q (x ∷ xs) = ground (arith, count-keep_both p q xs)

none_found : (p : Term → Bool) (xs : List Term) → find p xs ≡ none → count p xs ≡ 0
none_found p [] h = refl
none_found p (x ∷ xs) h = ground (arith, none_found p xs)

All-found :
    (P : Term → Type 0) (p : Term → Bool) (xs : List Term) {x : Term}
    → All P xs
    → find p xs ≡ some x
    → P x
All-found P p [] hs h = absurd (ground arith)
All-found P p (y ∷ xs) {x} hs h = elim (Bool-cases (p y)) [
  | inl e ↦ let same : y ≡ x = ground arith in subst P same hs.0
  | inr e ↦ All-found P p xs {x = x} hs.1 (ground arith)
]

-- Terms that are not archived, the newest first.
abbrev shown : List Term → List Term
shown terms = order_by newest_first (keep (λ t. not t.archived) terms)

or_first-ok :
    (o : Option Term) (terms : List Term) (env : Env) (db after : Db) {t : Term}
    → or_first o terms env db ≡ (ok t, after)
    → ((o ≡ some t) ⊎ ((o ≡ none) × (first_of terms ≡ some t))) × (after ≡ db)
or_first-ok (some u) terms env db after h = (inl (ground arith), ground arith)
or_first-ok none [] env db after h = absurd (ground arith)
or_first-ok none (u ∷ terms) env db after h = (inr (refl, ground arith), ground arith)

All-first : (P : Term → Type 0) (xs : List Term) {x : Term} → All P xs → first_of xs ≡ some x → P x
All-first P [] hs h = absurd (ground arith)
All-first P (y ∷ xs) {x} hs h = let same : y ≡ x = ground arith in subst P same hs.0

list_terms-shown :
    (env : Env) (db after : Db) {xs : List Term}
    → list_terms false env db ≡ (ok xs, after)
    → (xs ≡ shown db.terms) × (after ≡ db)
unfolding list_terms
list_terms-shown env db after h =
    >>=-read (attempt "select terms") _ env db (attempt-ReadOnly "select terms") h
      (λ u first rest. (ground arith, ground arith))

-- The current term is not archived, and takes enrollments whenever some term that is not archived
-- does; the call writes nothing.
pub current_term_open :
    (env : Env) (db after : Db) (t : Term)
    → current_term env db ≡ (ok t, after)
    → (t.archived ≡ false)
      × (count (λ u. (not u.archived) && enrollment_open u env.now) db.terms ≢ 0
          → enrollment_open t env.now ≡ true)
      × (after ≡ db)
unfolding current_term
current_term_open env db after t h = >>=-then (list_terms false) _ env db h (λ listed d first rest.
    let (all_shown, unchanged) = list_terms-shown env db d first in
    let is_open = λ (u : Term). enrollment_open u env.now in
    let terms = shown db.terms in
    let visible : All (λ u. not u.archived ≡ true) terms =
      All-order_by newest_first (λ u. not u.archived ≡ true) (keep (λ u. not u.archived) db.terms)
        (All-keep (λ u. not u.archived) db.terms) in
    let counted : count is_open terms ≡ count (λ u. not u.archived && is_open u) db.terms =
      count-order_by newest_first is_open (keep (λ u. not u.archived) db.terms)
      ∙ count-keep_both is_open (λ u. not u.archived) db.terms in
    let (cases, same) =
      or_first-ok (find is_open terms) terms env d after
        (ap (λ l. or_first (find is_open l) l env d) (sym all_shown) ∙ rest) in
    elim cases [
      | inl found ↦
          let passes = find-passes is_open terms {x = t} found in
          let seen = All-found (λ u. not u.archived ≡ true) is_open terms {x = t} visible found in
          (ground arith, (λ some_open. passes), same ∙ unchanged)
      | inr (absent, front) ↦
          let seen = All-first (λ u. not u.archived ≡ true) terms {x = t} visible front in
          let closed = none_found is_open terms absent in
          (ground arith, (λ some_open. absurd (some_open (sym counted ∙ closed))), same ∙ unchanged)
    ])
