-- ===== src/Auth/Session.antt =====
-- The visitor session (backend/internal/auth/cookie.go): which albums a browser has unlocked, and
-- the signed cookie that carries it. Times are seconds. JSON, base64 and HMAC-SHA256 enter through
-- `Codec`.
pub mod Grants
pub mod Cookie
use smugbox.Common.{
  ℕ, Text, List, ◌+◌, Option, Bool, filter, if◌then◌else◌, [], ◌≡◌, none, ◌++◌, some, text_eq, any,
  not, ltb, All, ◌∷◌, ◌&&◌, length, ◌≢◌, ◌==◌, leb, drop, ◌-◌, bind,
}

abbrev pub max_grants : ℕ
max_grants = 20

pub record Grant : Type 0 where
  pub album_id : Text
  pub version : ℕ

pub record Session : Type 0 where
  pub expires : ℕ
  pub grants : List Grant

abbrev pub is_grant : Text → ℕ → Grant → Bool
is_grant id version g = text_eq g.album_id id && g.version == version

-- Whether the session unlocks the album at this version of its password.
unfoldable pub granted : Session → Text → ℕ → Bool
granted s id version = any (is_grant id version) s.grants

-- The grants of the other albums, and the new one behind them.
abbrev pub replaced : List Grant → Text → ℕ → List Grant
replaced grants id version =
    filter (λ g. not (text_eq g.album_id id)) grants
    ++ record { album_id = id; version = version } ∷ []

-- The last `max_grants` of them.
abbrev pub newest : List Grant → List Grant
newest kept = if ltb max_grants (length kept) then drop (length kept - max_grants) kept else kept

-- `Add`: the oldest grants are dropped where there are too many.
unfoldable pub add : Session → Text → ℕ → Session
add s id version = record s { grants = newest (replaced s.grants id version) }

-- An empty session that ends `ttl` seconds from `now`.
unfoldable pub new_session : ℕ → ℕ → Session
new_session now ttl = record { expires = now + ttl; grants = [] }

-- What the cookie takes from encoding/json, encoding/base64 and crypto/hmac: a session can be read
-- back from its JSON, bytes from their base64url, and base64url has no dot.
pub record Codec : Type 0 where
  pub marshal : Session → Text
  pub unmarshal : Text → Option Session
  pub encode64 : Text → Text
  pub decode64 : Text → Option Text
  pub sign : Text → Text
  pub unmarshal-marshal : (s : Session) → unmarshal (marshal s) ≡ some s
  pub decode64-encode64 : (t : Text) → decode64 (encode64 t) ≡ some t
  pub encode64-HasNoDot : (t : Text) → All (λ c. c ≢ b'.') (encode64 t)

-- What stands before and behind the first dot.
unfoldable pub cut_dot : Text → Option (Text × Text)
cut_dot [] = none
cut_dot (c ∷ s) =
    if c == b'.'
    then some ([], s)
    else elim (cut_dot s) [ none ↦ none | some (a, b) ↦ some (c ∷ a, b) ]

module _ (codec : Codec) where
  open codec use {marshal, unmarshal, encode64, decode64, sign}

  -- base64url(json) "." base64url(hmac)
  unfoldable pub encode : Session → Text
  encode s = encode64 (marshal s) ++ (b'.' ∷ encode64 (sign (marshal s)))

  abbrev checked : ℕ → Text → Text → Option Session
  checked now payload sig =
      if text_eq sig (sign payload)
      then bind (unmarshal payload) (λ s. if leb s.expires now then none else some s)
      else none

  -- The signature is checked before the payload is parsed, and the expiry last.
  unfoldable pub decode : ℕ → Text → Option Session
  unfolding cut_dot
  decode now value = bind (cut_dot value) λ parts.
      bind (decode64 parts.0) λ payload. bind (decode64 parts.1) λ sig. checked now payload sig
