-- ===== src/Auth/ApiKey.antt =====
-- API keys (backend/internal/auth/apikey.go). `sha256` and `base64` stand for crypto/sha256 and
-- base64.RawURLEncoding; what is left of the random source is a list of bytes.
use smugbox.Common.{
  ℕ, Text, List, Bool, Option, none, some, if◌then◌else◌, ltb, length, take, ◌*◌, text_eq,
}

abbrev pub api_key_prefix_len : ℕ
api_key_prefix_len = 8

abbrev pub api_key_bytes : ℕ
api_key_bytes = 32

unfoldable pub generate_api_key : (Text → Text) → List ℕ → Option Text
generate_api_key base64 random =
    if ltb (length random) api_key_bytes then none else some (base64 (take api_key_bytes random))

-- The part of a key by which its row is looked up, unless it is too short for a key.
unfoldable pub api_key_prefix : Text → Option Text
api_key_prefix plain =
    if ltb (length plain) (2 * api_key_prefix_len)
    then none
    else some (take api_key_prefix_len plain)

abbrev pub verify_api_key : (Text → Text) → Text → Text → Bool
verify_api_key sha256 plain hash = text_eq (sha256 plain) hash
