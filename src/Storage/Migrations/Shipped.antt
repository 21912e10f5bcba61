-- ===== src/Storage/Migrations/Shipped.antt =====
-- The shipped migrations, and which recorded versions the check lets through.
use orientation_enrollment_p.Base.{
  ℕ, suc, true, ◌≡◌, refl, ap, ◌∙◌, subst, ◌+◌, ◌-◌, ◌<◌, ◌≤◌, arith, inl, inr, false, ◌==◌, some,
  List, [], ◌∷◌, All, leb, length, Bool-cases,
}
use orientation_enrollment_p.Base.Sort.{order_by}
use orientation_enrollment_p.Base.Text.{text_eq_refl}
use orientation_enrollment_p.Domain.Errors.{Result, ok, err, fail_if, opaque, ◌>>=◌, ◌>>◌}
use orientation_enrollment_p.Security.Credentials.{Crypto}
use orientation_enrollment_p.Storage.Migrations.{
  Migration, File, Applied, contiguous, in_order, no_files, read_files, all_migrations, nth,
  shipped, check_applied,
}

-- What `All` returns counts up from 1.
in_order-contiguous : (ms all : List Migration) → in_order ms ≡ ok all → contiguous 1 all ≡ true
in_order-contiguous ms all h = elim (Bool-cases (contiguous 1 ms)) [
  | inl e ↦ let same : ms ≡ all = ground arith in subst (λ l. contiguous 1 l ≡ true) same e
  | inr e ↦ absurd (ground arith)
]

pub all_migrations-contiguous :
    (crypto : Crypto) (files : List File) (all : List Migration)
    → all_migrations crypto files ≡ ok all
    → contiguous 1 all ≡ true
unfolding all_migrations
all_migrations-contiguous crypto files all h = found_lem (read_files crypto [] files) h
  where
    found_lem :
        (r : Result (List Migration))
        → (r >>= λ found.
            fail_if (no_files found) opaque
            >> in_order (order_by (λ m n. leb m.version n.version) found))
          ≡ ok all
        → contiguous 1 all ≡ true
    found_lem (err e) k = absurd (ground arith)
    found_lem (ok []) k = absurd (ground arith)
    found_lem (ok (m ∷ ms)) k =
        in_order-contiguous (order_by (λ m n. leb m.version n.version) (m ∷ ms)) all k

-- Where each migration of a list that counts up from k + 1 stands.
abbrev pub Placed : ℕ → List Migration → Migration → Type 0
Placed k ms m =
    (nth (m.version - 1 - k) ms ≡ some m) × (k < m.version) × (m.version ≤ k + length ms)

Placed-tail :
    (k : ℕ) (m : Migration) (ms rest : List Migration)
    → All (Placed (suc k) ms) rest
    → All (Placed k (m ∷ ms)) rest
Placed-tail k m ms [] h = tt
Placed-tail k m ms (r ∷ rest) h =
    let (at, low, high) = h.0 in
    let further : r.version - 1 - k ≡ suc (r.version - 1 - suc k) = omega arith in
    ((ap (λ n. nth n (m ∷ ms)) further ∙ at, omega arith, omega arith), Placed-tail k m ms rest h.1)

pub all_Placed : (k : ℕ) (ms : List Migration) → contiguous (k + 1) ms ≡ true → All (Placed k ms) ms
unfolding contiguous
all_Placed k [] h = tt
all_Placed k (m ∷ ms) h =
    let here : m.version ≡ k + 1 = ground arith in
    let first : m.version - 1 - k ≡ 0 = omega arith in
    let one_up : k + 1 ≡ suc k = omega arith in
    let rest : contiguous (suc k + 1) ms ≡ true = ground arith in
    (
      (ap (λ n. nth n (m ∷ ms)) first, omega arith, omega arith),
      Placed-tail k m ms ms (all_Placed (suc k) ms rest),
    )

shipped-Placed :
    (all : List Migration) (m : Migration)
    → Placed 0 all m
    → shipped all (m.version, m.checksum) ≡ true
shipped-Placed all m h =
    let (at, low, high) = h in
    let there : nth (m.version - 1) all ≡ some m = ap (λ n. nth n all) (omega arith) ∙ at in
    rw (there, text_eq_refl m.checksum) (ground arith)

-- A recorded version that the check lets through.
abbrev pub Sound : List Migration → Applied → Type 0
Sound all a = ((a.0 == 0) ≡ false) × (shipped all a ≡ true)

-- Every migration of a contiguous list is shipped by it.
abbrev pub Ships : List Migration → Migration → Type 0
Ships all m = Sound all (m.version, m.checksum)

pub all_Ships : (all ms : List Migration) → All (Placed 0 all) ms → All (Ships all) ms
all_Ships all [] h = tt
all_Ships all (m ∷ ms) h =
    let (at, low, high) = h.0 in
    let named : (m.version == 0) ≡ false = ground arith in
    ((named, shipped-Placed all m h.0), all_Ships all ms h.1)

pub check_applied-ok :
    (all : List Migration) (rows : List Applied)
    → check_applied all rows ≡ some (ok tt)
    → All (Sound all) rows
unfolding check_applied
check_applied-ok all [] h = tt
check_applied-ok all (a ∷ rows) h = elim (Bool-cases (a.0 == 0)) [
  | inl e ↦ absurd (ground arith)
  | inr named ↦ elim (Bool-cases (shipped all a)) [
    | inl e ↦ ((named, e), check_applied-ok all rows (ground arith))
    | inr e ↦ absurd (ground arith)
  ]
]

pub check_applied-passes :
    (all : List Migration) (rows : List Applied)
    → All (Sound all) rows
    → check_applied all rows ≡ some (ok tt)
unfolding check_applied
check_applied-passes all [] h = refl
check_applied-passes all (a ∷ rows) h = rw (h.0.0, h.0.1) (check_applied-passes all rows h.1)
