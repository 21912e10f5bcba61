-- ===== src/Storage/Migrations.antt =====
-- internal/migrations/migrations.go and internal/storage/sqlite/migrate.go: the embedded schema files,
-- and bringing a database up to them. What a script does to the schema, and which commits fail, are
-- arguments, and so are the errors of creating and of reading schema_migrations. The rows stand in the
-- order in which the map of them is walked; a recorded version of 0 makes its index panic.
pub mod Shipped
pub mod Reruns
use orientation_enrollment_p.Base.{
  ℕ, zero, suc, Bool, true, false, not, ◌&&◌, ◌||◌, ◌+◌, ◌-◌, Option, none, some, List, [], ◌∷◌,
  ltb, leb, ◌==◌, any, length, if◌then◌else◌,
}
use orientation_enrollment_p.Base.Int.{ℤ, pos, negsuc}
use orientation_enrollment_p.Base.Sort.{order_by}
use orientation_enrollment_p.Base.Text.{Text, codes, text_eq, is_empty, trim_space}
use orientation_enrollment_p.Domain.Errors.{
  Error, Result, ok, err, sentinel, wrapped, opaque, migration_drift, ◌>>=◌, ◌>>◌, fail_if,
}
use orientation_enrollment_p.Security.Credentials.{Crypto, hex}
use orientation_enrollment_p.Security.Decimal.{atoi}

pub record Migration : Type 0 where
  pub version : ℕ
  pub name : Text
  pub script : Text
  pub checksum : Text

-- An entry of the embedded directory.
pub record File : Type 0 where
  pub name : Text
  pub is_dir : Bool
  pub content : Text

-- strings.TrimSuffix
abbrev pub trim_suffix : Text → Text → Text
trim_suffix suffix [] = []
trim_suffix suffix (c ∷ s) =
    let rest = trim_suffix suffix s in if text_eq suffix (c ∷ s) then [] else c ∷ rest

-- strings.HasSuffix
abbrev pub has_suffix : Text → Text → Bool
has_suffix suffix [] = is_empty suffix
has_suffix suffix (c ∷ s) = text_eq suffix (c ∷ s) || has_suffix suffix s

abbrev onto_first : ℕ → Option (Text × Text) → Option (Text × Text)
onto_first c none = none
onto_first c (some (w, rest)) = some (c ∷ w, rest)

-- strings.SplitN(s, "_", 2), where one part is `none`.
abbrev pub split_once : Text → Option (Text × Text)
split_once [] = none
split_once (c ∷ s) = let rest = split_once s in if c == 95 then some ([], s) else onto_first c rest

abbrev positive_version : Option ℤ → Result ℕ
positive_version (some (pos (suc n))) = ok (suc n)
positive_version _ = err opaque

abbrev named_parts : Option (Text × Text) → Result (ℕ × Text)
named_parts none = err opaque
named_parts (some (prefix, name)) = do
  version ← positive_version (atoi prefix)
  fail_if (is_empty (trim_space name)) opaque
  ok (version, name)

-- `parseName`
unfoldable pub parse_name : Text → Result (ℕ × Text)
parse_name filename = named_parts (split_once (trim_suffix (codes ".sql") filename))

abbrev pub migration_of : Crypto → File → ℕ × Text → Migration
migration_of crypto file (version, name) = record {
  version = version;
  name = name;
  script = file.content;
  checksum = hex (crypto.sha256 file.content);
}

abbrev seen : ℕ → List Migration → Bool
seen version found = any (λ m. m.version == version) found

abbrev is_script : File → Bool
is_script file = not file.is_dir && has_suffix (codes ".sql") file.name

-- The loop over the directory, with what it has found so far.
unfoldable pub read_files : Crypto → List Migration → List File → Result (List Migration)
read_files crypto found [] = ok found
read_files crypto found (file ∷ files) =
    if is_script file
    then (parse_name file.name >>= λ parsed.
        fail_if (seen parsed.0 found) opaque
        >> read_files crypto (migration_of crypto file parsed ∷ found) files)
    else read_files crypto found files

-- Versions count up by one.
unfoldable pub contiguous : ℕ → List Migration → Bool
contiguous next [] = true
contiguous next (m ∷ ms) = (m.version == next) && contiguous (next + 1) ms

abbrev no_files : List Migration → Bool
no_files [] = true
no_files (m ∷ ms) = false

abbrev in_order : List Migration → Result (List Migration)
in_order ms = fail_if (not (contiguous 1 ms)) opaque >> ok ms

-- `All`
unfoldable pub all_migrations : Crypto → List File → Result (List Migration)
all_migrations crypto files = do
  found ← read_files crypto [] files
  fail_if (no_files found) opaque
  in_order (order_by (λ m n. leb m.version n.version) found)

-- A row of schema_migrations: version and checksum.
abbrev pub Applied : Type 0
Applied = ℕ × Text

abbrev pub nth : ℕ → List Migration → Option Migration
nth n [] = none
nth zero (m ∷ ms) = some m
nth (suc n) (m ∷ ms) = nth n ms

abbrev same_checksum : Option Migration → Text → Bool
same_checksum none checksum = false
same_checksum (some m) checksum = text_eq m.checksum checksum

-- The repository ships the version, with the checksum.
abbrev pub shipped : List Migration → Applied → Bool
shipped all (version, checksum) =
    not (ltb (length all) version) && same_checksum (nth (version - 1) all) checksum

-- The loop over the recorded versions; `none` is the panic of the index that version 0 gives.
unfoldable pub check_applied : List Migration → List Applied → Option (Result (Unit {0}))
check_applied all [] = some (ok tt)
check_applied all (a ∷ rest) =
    let later = check_applied all rest in
    if a.0 == 0
    then none
    else if shipped all a
    then later
    else some (err (wrapped (sentinel migration_drift)))

abbrev pub is_applied : ℕ → List Applied → Bool
is_applied version applied = any (λ (a : Applied). a.0 == version) applied

pub record Outcome : Type 0 where
  pub applied : List ℕ
  pub already_current : Bool
  pub version : ℕ

-- The errors of a run's statements on schema_migrations itself.
pub record Access : Type 0 where
  pub create : Option Error
  pub load : Option Error

-- A database: what was recorded as applied, and the schema itself.
pub record Database (S : Type 0) : Type 0 where
  pub applied : List Applied
  pub schema : S

module _ {S : Type 0} (run : Text → S → Result S) (commit : ℕ → Option Error) where
  abbrev committed : Migration → Database S → S → Option Error → Result (Unit {0}) × Database S
  committed m db schema none =
      (ok tt, record { applied = (m.version, m.checksum) ∷ db.applied; schema = schema })
  committed m db schema (some e) = (err (wrapped e), db)

  abbrev scripted : Migration → Database S → Result S → Result (Unit {0}) × Database S
  scripted m db (ok schema) = committed m db schema (commit m.version)
  scripted m db (err e) = (err (wrapped e), db)

  -- `applyMigration`: the script and its record in one transaction.
  unfoldable pub apply_migration : Migration → Database S → Result (Unit {0}) × Database S
  apply_migration m db = scripted m db (run m.script db.schema)

  abbrev noting : ℕ → Result (List ℕ) × Database S → Result (List ℕ) × Database S
  noting version (ok versions, db) = (ok (version ∷ versions), db)
  noting version (err e, db) = (err e, db)

  abbrev and_rest :
      Migration
      → (Database S → Result (List ℕ) × Database S)
      → Result (Unit {0}) × Database S
      → Result (List ℕ) × Database S
  and_rest m rest (ok u, db) = noting m.version (rest db)
  and_rest m rest (err e, db) = (err e, db)

  -- The loop of `Migrate`, over what had been applied before it.
  unfoldable pub apply_missing :
      List Applied → List Migration → Database S → Result (List ℕ) × Database S
  unfolding apply_migration
  apply_missing before [] db = (ok [], db)
  apply_missing before (m ∷ ms) db =
      let rest = apply_missing before ms in
      if is_applied m.version before then rest db else and_rest m rest (apply_migration m db)

  abbrev none_applied : List ℕ → Bool
  none_applied [] = true
  none_applied (v ∷ vs) = false

  abbrev outcome : ℕ → Result (List ℕ) × Database S → Result Outcome × Database S
  outcome latest (ok versions, db) = (
    ok (record { applied = versions; already_current = none_applied versions; version = latest }),
    db,
  )
  outcome latest (err e, db) = (err e, db)

  -- What a run answers, unless it panics, and the database after it.
  abbrev pub Answer : Type 0
  Answer = Option (Result Outcome) × Database S

  abbrev pub answered : Result Outcome × Database S → Answer
  answered (r, db) = (some r, db)

  abbrev checked : List Migration → Database S → Option (Result (Unit {0})) → Answer
  checked all db none = (none, db)
  checked all db (some (ok u)) = answered (outcome (length all) (apply_missing db.applied all db))
  checked all db (some (err e)) = (some (err e), db)

  abbrev loaded : Option Error → List Migration → Database S → Answer
  loaded (some e) all db = (some (err (wrapped e)), db)
  loaded none all db = checked all db (check_applied all db.applied)

  abbrev created : Access → List Migration → Database S → Option Error → Answer
  created access all db (some e) = (some (err (wrapped e)), db)
  created access all db none = loaded access.load all db

  abbrev migrate_to : Access → Result (List Migration) → Database S → Answer
  migrate_to access (ok all) db = created access all db access.create
  migrate_to access (err e) db = (some (err e), db)

  -- `Migrate`
  unfoldable pub migrate : Access → Crypto → List File → Database S → Answer
  migrate access crypto files db = migrate_to access (all_migrations crypto files) db

abbrev last_version : List Migration → ℕ
last_version [] = 0
last_version (m ∷ []) = m.version
last_version (m ∷ n ∷ ms) = last_version (n ∷ ms)

-- `LatestVersion`
unfoldable pub latest_version : Crypto → List File → Result ℕ
latest_version crypto files = all_migrations crypto files >>= λ all. ok (last_version all)

-- `SchemaVersion`: MAX(version), and 0 for no rows.
unfoldable pub schema_version : List Applied → ℕ
schema_version [] = 0
schema_version ((version, checksum) ∷ rest) =
    let highest = schema_version rest in if ltb highest version then version else highest
