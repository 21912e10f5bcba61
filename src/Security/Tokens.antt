-- ===== src/Security/Tokens.antt =====
-- internal/platform/ids/ids.go. What the random source answers is an argument: its bytes, or none.
use orientation_enrollment_p.Base.{Option, none, some, ◌∷◌, ◌++◌, if◌then◌else◌}
use orientation_enrollment_p.Base.Text.{Text, codes, is_empty, to_lower}
use orientation_enrollment_p.Domain.Errors.{Result, ok, err, wrapped, opaque, ◌>>=◌}
use orientation_enrollment_p.Security.Credentials.{Crypto, hex}

abbrev random_bytes : Option Text → Result Text
random_bytes none = err (wrapped opaque)
random_bytes (some bytes) = ok bytes

-- `NewRequestID`
unfoldable pub new_request_id : Option Text → Result Text
unfolding hex
new_request_id random = random_bytes random >>= λ bytes. ok (codes "req_" ++ hex bytes)

-- `NewSessionToken`
unfoldable pub new_session_token : Crypto → Option Text → Result Text
unfolding to_lower
new_session_token crypto random =
    random_bytes random >>= λ bytes. ok (to_lower (crypto.base32 bytes))

-- `NewWorkerID`
unfoldable pub new_worker_id : Option Text → Text → Result Text
unfolding hex
new_worker_id random prefix = random_bytes random >>= λ bytes.
    ok ((if is_empty prefix then codes "worker" else prefix) ++ (45 ∷ hex bytes))
