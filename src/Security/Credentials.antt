-- ===== src/Security/Credentials.antt =====
-- internal/security/credentials.go: password hashing, token digests and payload fingerprints. The
-- cryptographic packages and base64 are parameters; bytes are naturals, and xor is that of numbers.
use Prim.Native.Nat.{bit_xor}
use orientation_enrollment_p.Base.{
  ℕ, zero, suc, Bool, false, not, ◌≡◌, ◌+◌, ◌-◌, ◌/◌, ◌%◌, ◌^◌, Option, none, some, List, [], ◌∷◌,
  ◌++◌, ltb, ◌==◌, if◌then◌else◌, any, length, take,
}
use orientation_enrollment_p.Base.Int.{ℤ, pos}
use orientation_enrollment_p.Base.Text.{Text, codes, text_eq}
use orientation_enrollment_p.Domain.Errors.{Result, ok, err, wrapped, opaque, ◌>>=◌, ◌>>◌, fail_if}
use orientation_enrollment_p.Security.Decimal.{itoa, atoi}
use orientation_enrollment_p.Security.Words.{join, split}

-- crypto/sha256, crypto/hmac over it (key, message), and the encodings without padding.
pub record Crypto : Type 0 where
  pub sha256 : Text → Text
  pub hmac_sha256 : Text → Text → Text
  pub base64 : Text → Text
  pub unbase64 : Text → Option Text
  pub base32 : Text → Text

-- What the packages document: base64 is decoded to what was encoded, its alphabet has no dollar
-- sign, and a MAC of SHA-256 has 32 bytes.
pub record Documented (crypto : Crypto) : Type 0 where
  pub decodes : (bytes : Text) → crypto.unbase64 (crypto.base64 bytes) ≡ some bytes
  pub no_dollar : (bytes : Text) → any (λ b. b == 36) (crypto.base64 bytes) ≡ false
  pub mac_size : (key message : Text) → length (crypto.hmac_sha256 key message) ≡ 32

abbrev pub default_iterations : ℕ
default_iterations = 60000

abbrev pub hash_prefix : Text
hash_prefix = codes "pbkdf2_sha256"

abbrev pub salt_length : ℕ
salt_length = 16

abbrev pub key_length : ℕ
key_length = 32

-- t[i] ^= u[i] over the indices of t, which u has too.
abbrev pub xor_bytes : Text → Text → Text
xor_bytes [] u = []
xor_bytes (a ∷ t) [] = a ∷ t
xor_bytes (a ∷ t) (b ∷ u) = bit_xor a b ∷ xor_bytes t u

-- The inner loop: `rounds` more iterations from u and t.
unfoldable pub stretch : (Text → Text) → ℕ → Text → Text → Text
stretch mac zero u t = t
stretch mac (suc rounds) u t = let v = mac u in stretch mac rounds v (xor_bytes t v)

-- byte(block >> 24), byte(block >> 16), byte(block >> 8), byte(block)
abbrev pub block_bytes : ℕ → Text
block_bytes block =
    (block / 2 ^ 24 % 256) ∷ (block / 2 ^ 16 % 256) ∷ (block / 2 ^ 8 % 256) ∷ (block % 256) ∷ []

abbrev pub derive_block : (Text → Text) → Text → ℕ → ℕ → Text
derive_block mac salt iterations block =
    let u = mac (salt ++ block_bytes block) in stretch mac (iterations - 1) u u

-- The outer loop: `left` blocks from the given one on.
unfoldable pub derive_blocks : (Text → Text) → Text → ℕ → ℕ → ℕ → Text
derive_blocks mac salt iterations zero block = []
derive_blocks mac salt iterations (suc left) block =
    derive_block mac salt iterations block ++ derive_blocks mac salt iterations left (block + 1)

-- `pbkdf2SHA256`; `mac.Size()` is 32.
unfoldable pub pbkdf2_sha256 : Crypto → Text → Text → ℕ → ℕ → Text
pbkdf2_sha256 crypto password salt iterations size =
    take size (derive_blocks (crypto.hmac_sha256 password) salt iterations ((size + 32 - 1) / 32) 1)

abbrev pub work_factor : ℕ → ℕ
work_factor iterations = if iterations == 0 then default_iterations else iterations

-- `HashPassword`; iterations that are not positive take the branch of 0.
unfoldable pub hash_password : Crypto → Text → Text → ℕ → Result Text
hash_password crypto password salt iterations =
    fail_if (ltb (length password) 8) opaque
    >> fail_if (not (length salt == salt_length)) opaque
    >> ok (
        join 36 (
          hash_prefix
          ∷ itoa (work_factor iterations)
          ∷ crypto.base64 salt
          ∷ crypto.base64 (pbkdf2_sha256 crypto password salt (work_factor iterations) key_length)
          ∷ []))

abbrev pub positive : Option ℤ → Result ℕ
positive (some (pos (suc n))) = ok (suc n)
positive _ = err opaque

abbrev pub decoded : Option Text → Result Text
decoded none = err (wrapped opaque)
decoded (some bytes) = ok bytes

-- The parts of a stored hash with the prefix.
abbrev pub verify_parts : Crypto → Text → Text → Text → Text → Result Bool
verify_parts crypto factor salt_text digest_text candidate = do
  iterations ← positive (atoi factor)
  salt ← decoded (crypto.unbase64 salt_text)
  expected ← decoded (crypto.unbase64 digest_text)
  ok (text_eq expected (pbkdf2_sha256 crypto candidate salt iterations (length expected)))

abbrev pub verify_words : Crypto → List Text → Text → Result Bool
verify_words crypto (prefix ∷ factor ∷ salt ∷ digest ∷ []) candidate =
    if text_eq prefix hash_prefix
    then verify_parts crypto factor salt digest candidate
    else err opaque
verify_words crypto _ candidate = err opaque

-- `VerifyPassword`
unfoldable pub verify_password : Crypto → Text → Text → Result Bool
verify_password crypto stored candidate = verify_words crypto (split 36 stored) candidate

abbrev pub hex_digit : ℕ → ℕ
hex_digit n = if ltb n 10 then 48 + n else 87 + n

-- hex.EncodeToString
unfoldable pub hex : Text → Text
hex [] = []
hex (b ∷ bytes) = hex_digit (b / 16 % 16) ∷ hex_digit (b % 16) ∷ hex bytes

-- `TokenDigest`
unfoldable pub token_digest : Crypto → Text → Text
token_digest crypto token = hex (crypto.sha256 token)

-- What is written to the hash: each part and a zero byte.
unfoldable pub framed : List Text → Text
framed [] = []
framed (part ∷ parts) = part ++ (0 ∷ framed parts)

-- `FingerprintPayload`
unfoldable pub fingerprint_payload : Crypto → List Text → Text
fingerprint_payload crypto parts = hex (crypto.sha256 (framed parts))

-- `NewSalt` with what the random source answers, and `HashNewPassword`.
abbrev pub new_salt : Option Text → Result Text
new_salt none = err (wrapped opaque)
new_salt (some bytes) = ok bytes

unfoldable pub hash_new_password : Crypto → Option Text → Text → Result Text
hash_new_password crypto random password =
    new_salt random >>= λ salt. hash_password crypto password salt default_iterations
