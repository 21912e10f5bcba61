-- ===== src/Storage/Rules.antt =====
-- A sequence of repository calls that returned a value, taken apart. Calls that fail are rolled
-- back by their transaction, so the contracts of the statements speak of calls that succeed.
use orientation_enrollment_p.Base.{
  String, Bool, true, false, ◌≡◌, refl, sym, ap, ◌∙◌, Option, none, some, arith,
}
use orientation_enrollment_p.Domain.Errors.{Error, Result, ok, err}
use orientation_enrollment_p.Storage.Db.{
  Db, Env, Tx, and_then, lift, ◌>>=◌, attempt, or_not_found, raise_if,
}

and_then-ok :
    {A B : Type 0} (r : Result A × Db) (f : A → Tx B) (env : Env) {b : B} {after : Db}
    → and_then r.0 f env r.1 ≡ (ok b, after)
    → (a : A) × (between : Db) × (r ≡ (ok a, between)) × (f a env between ≡ (ok b, after))
and_then-ok (ok a, db) f env h = (a, db, refl, h)
and_then-ok (err e, db) f env h = cc

-- Both calls of a sequence returned a value.
pub >>=-ok :
    {A B : Type 0} (m : Tx A) (f : A → Tx B) (env : Env) (db : Db) {b : B} {after : Db}
    → (m >>= f) env db ≡ (ok b, after)
    → (a : A) × (between : Db) × (m env db ≡ (ok a, between)) × (f a env between ≡ (ok b, after))
>>=-ok m f env db h = and_then-ok (m env db) f env h

-- A statement leaves the tables alone before it acts.
pub attempt-ok :
    (s : String) (env : Env) (db after : Db) {u : Unit {0}}
    → attempt s env db ≡ (ok u, after)
    → after ≡ db
unfolding attempt
attempt-ok s env db after h = ground arith

-- The same in the form of a step: the rest is proved for any value of the first call.
pub >>=-then {ℓ} :
    {P : Type ℓ} {A B : Type 0} (m : Tx A) (f : A → Tx B) (env : Env) (db : Db) {b : B} {after : Db}
    → (m >>= f) env db ≡ (ok b, after)
    → ((a : A) (between : Db) → m env db ≡ (ok a, between) → f a env between ≡ (ok b, after) → P)
    → P
>>=-then m f env db h rest =
    let (a, between, first, later) = >>=-ok m f env db h in rest a between first later

-- A call that only reads.
abbrev pub ReadOnly : {A : Type 0} → Tx A → Type 0
ReadOnly m = (env : Env) (db : Db) → (m env db).1 ≡ db

-- After a call that only reads, the tables are the same.
pub >>=-read {ℓ} :
    {P : Type ℓ} {A B : Type 0} (m : Tx A) (f : A → Tx B) (env : Env) (db : Db) {b : B} {after : Db}
    → ReadOnly m
    → (m >>= f) env db ≡ (ok b, after)
    → ((a : A) → m env db ≡ (ok a, db) → f a env db ≡ (ok b, after) → P)
    → P
>>=-read m f env db reads h rest = >>=-then m f env db h (λ a between first later.
    let same : between ≡ db = sym (ap (λ r. r.1) first) ∙ reads env db in
    rest a (first ∙ ap (λ d. (ok a, d)) same) (ap (f a env) (sym same) ∙ later))

pub attempt-ReadOnly : (s : String) → ReadOnly (attempt s)
unfolding attempt
attempt-ReadOnly s env db = refl

module _ {A B : Type 0} where
  and_then-ReadOnly :
      (r : Result A) (f : A → Tx B) → ((a : A) → ReadOnly (f a)) → ReadOnly (and_then r f)
  and_then-ReadOnly (ok a) f reads env db = reads a env db
  and_then-ReadOnly (err e) f reads env db = refl

  pub >>=-ReadOnly :
      (m : Tx A) (f : A → Tx B) → ReadOnly m → ((a : A) → ReadOnly (f a)) → ReadOnly (m >>= f)
  >>=-ReadOnly m f first later env db =
      and_then-ReadOnly (m env db).0 f later env (m env db).1 ∙ first env db

pub lift-ReadOnly : {A : Type 0} (r : Result A) → ReadOnly (lift r)
lift-ReadOnly r env db = refl

pub raise_if-ReadOnly : (test : Bool) (e : Error) → ReadOnly (raise_if test e)
raise_if-ReadOnly true e env db = refl
raise_if-ReadOnly false e env db = refl

pub or_not_found-ReadOnly : {A : Type 0} (o : Option A) → ReadOnly (or_not_found o)
or_not_found-ReadOnly none env db = refl
or_not_found-ReadOnly (some a) env db = refl

-- A pure check in a sequence.
pub >>=-lift {ℓ} :
    {P : Type ℓ} {A B : Type 0} (r : Result A) (f : A → Tx B) (env : Env) (db : Db) {b : B}
    {after : Db}
    → (lift r >>= f) env db ≡ (ok b, after)
    → ((a : A) → r ≡ ok a → f a env db ≡ (ok b, after) → P)
    → P
>>=-lift r f env db h rest =
    >>=-read (lift r) f env db (lift-ReadOnly r) h
      (λ a first later. rest a (ap (λ p. p.0) first) later)

-- A guard that a sequence has passed.
pub >>=-raise_if {ℓ} :
    {P : Type ℓ} {B : Type 0} (test : Bool) (e : Error) (f : Unit {0} → Tx B) (env : Env) (db : Db)
    {b : B} {after : Db}
    → (raise_if test e >>= f) env db ≡ (ok b, after)
    → (test ≡ false → f tt env db ≡ (ok b, after) → P)
    → P
>>=-raise_if true e f env db h rest = absurd (ground arith)
>>=-raise_if false e f env db h rest = rest refl h

-- A value that was not missing.
pub or_not_found-ok :
    {A : Type 0} (o : Option A) (env : Env) (db after : Db) {a : A}
    → or_not_found o env db ≡ (ok a, after)
    → (o ≡ some a) × (after ≡ db)
or_not_found-ok none env db after h = absurd (ground arith)
or_not_found-ok (some a) env db after h = ground arith
