-- ===== src/Security/Passwords.antt =====
-- A stored hash is verified by the password that it was made from.
use orientation_enrollment_p.Base.{
  ℕ, zero, suc, true, false, ◌≡◌, refl, ap, ◌∙◌, ◌<◌, ◌≤◌, ◌+◌, ◌-◌, ◌^◌, arith, [], ◌∷◌, ◌++◌,
  length, take, any, ◌==◌,
}
use orientation_enrollment_p.Base.Text.{Text, text_eq, text_eq_refl}
use orientation_enrollment_p.Domain.Errors.{ok}
use orientation_enrollment_p.Security.Decimal.{itoa, itoa-plain, atoi-itoa}
use orientation_enrollment_p.Security.Words.{split, join, split-word, split-alone}
use orientation_enrollment_p.Security.Credentials.{
  Crypto, Documented, hash_prefix, key_length, xor_bytes, stretch, derive_blocks, derive_block,
  block_bytes, pbkdf2_sha256, work_factor, hash_password, verify_words, verify_parts,
  verify_password,
}

length-++ : (s t : Text) → length (s ++ t) ≡ length s + length t
length-++ [] t = omega arith
length-++ (c ∷ s) t = omega (arith, length-++ s t)

length-take : (n : ℕ) (s : Text) → n ≤ length s → length (take n s) ≡ n
length-take zero [] h = refl
length-take (suc n) [] h = absurd (omega arith)
length-take zero (c ∷ s) h = refl
length-take (suc n) (c ∷ s) h = omega (arith, length-take n s (omega arith))

length-xor_bytes : (t u : Text) → length (xor_bytes t u) ≡ length t
length-xor_bytes [] u = refl
length-xor_bytes (a ∷ t) [] = refl
length-xor_bytes (a ∷ t) (b ∷ u) = ap suc (length-xor_bytes t u)

length-stretch :
    (mac : Text → Text) (rounds : ℕ) (u t : Text) → length (stretch mac rounds u t) ≡ length t
unfolding stretch
length-stretch mac zero u t = refl
length-stretch mac (suc rounds) u t =
    length-stretch mac rounds (mac u) (xor_bytes t (mac u)) ∙ length-xor_bytes t (mac u)

module _ (crypto : Crypto) (documented : Documented crypto) where
  length-pbkdf2 :
      (password salt : Text) (iterations : ℕ)
      → length (pbkdf2_sha256 crypto password salt iterations key_length) ≡ key_length
  unfolding pbkdf2_sha256 derive_blocks
  length-pbkdf2 password salt iterations =
      let mac = crypto.hmac_sha256 password in
      let block = derive_block mac salt iterations 1 in
      let size : length block ≡ 32 =
        length-stretch mac (iterations - 1) (mac (salt ++ block_bytes 1))
          (mac (salt ++ block_bytes 1))
        ∙ documented.mac_size password (salt ++ block_bytes 1) in
      length-take 32 (block ++ []) (omega (arith, length-++ block [], size))

  -- The four words of a hash are taken apart again.
  split-join :
      (factor salt digest : Text)
      → any (λ b. b == 36) factor ≡ false
      → any (λ b. b == 36) salt ≡ false
      → any (λ b. b == 36) digest ≡ false
      → split 36 (join 36 (hash_prefix ∷ factor ∷ salt ∷ digest ∷ []))
        ≡ hash_prefix ∷ factor ∷ salt ∷ digest ∷ []
  unfolding join
  split-join factor salt digest f s d =
      split-word 36 hash_prefix _ refl
      ∙ ap (λ ws. hash_prefix ∷ ws)
          (split-word 36 factor _ f
            ∙ ap (λ ws. factor ∷ ws)
                (split-word 36 salt _ s ∙ ap (λ ws. salt ∷ ws) (split-alone 36 digest d)))

  verify_parts-hashed :
      (factor : ℕ) (salt key candidate : Text)
      → 0 < factor
      → factor < 2 ^ 63
      → length key ≡ key_length
      → verify_parts crypto (itoa factor) (crypto.base64 salt) (crypto.base64 key) candidate
        ≡ ok (text_eq key (pbkdf2_sha256 crypto candidate salt factor key_length))
  verify_parts-hashed zero salt key candidate some_work small size = absurd (omega arith)
  verify_parts-hashed (suc n) salt key candidate some_work small size =
      rw (atoi-itoa (suc n) small, documented.decodes salt, documented.decodes key, size) refl

  stored_text :
      (password salt : Text) (iterations : ℕ) (stored : Text)
      → hash_password crypto password salt iterations ≡ ok stored
      → stored
        ≡ join 36 (
            hash_prefix
            ∷ itoa (work_factor iterations)
            ∷ crypto.base64 salt
            ∷ crypto.base64 (pbkdf2_sha256 crypto password salt (work_factor iterations) key_length)
            ∷ [])
  unfolding hash_password
  stored_text password salt iterations stored hashed = ground arith

  -- A password that could be hashed verifies against its hash, and any other candidate does so
  -- exactly when it derives the same key from the salt and the work factor of the hash.
  pub verify_password-hash_password :
      (password salt : Text) (iterations : ℕ) (stored : Text)
      → iterations < 2 ^ 63
      → hash_password crypto password salt iterations ≡ ok stored
      → (verify_password crypto stored password ≡ ok true)
        × ((candidate : Text)
            → verify_password crypto stored candidate
              ≡ ok (
                  text_eq
                    (pbkdf2_sha256 crypto password salt (work_factor iterations) key_length)
                    (pbkdf2_sha256 crypto candidate salt (work_factor iterations) key_length)))
  unfolding hash_password verify_password
  verify_password-hash_password password salt iterations stored small hashed =
      let factor = work_factor iterations in
      let key = pbkdf2_sha256 crypto password salt factor key_length in
      let words : split 36 stored
          ≡ hash_prefix ∷ itoa factor ∷ crypto.base64 salt ∷ crypto.base64 key ∷ [] =
        ap (split 36) (stored_text password salt iterations stored hashed)
        ∙ split-join (itoa factor) (crypto.base64 salt) (crypto.base64 key) (itoa-plain factor)
            (documented.no_dollar salt) (documented.no_dollar key) in
      let checked = λ (candidate : Text).
        ap (λ ws. verify_words crypto ws candidate) words
        ∙ verify_parts-hashed factor salt key candidate (ground arith) (ground arith)
            (length-pbkdf2 password salt factor) in
      (checked password ∙ ap ok (text_eq_refl key), checked)
