-- ===== src/Tests/Admin.antt =====
-- The admin commands at concrete inputs.
use smugbox.Admin.{create_key, revoke_key}
use smugbox.Admin.Keys.{create_key-require_api_key, revoke_key-require_api_key}
use smugbox.Api.Access.Held.{Held}
use smugbox.Api.Access.{next_session}
use smugbox.Api.Keys.{scheme, require_api_key, unauthorized}
use smugbox.Api.Keys.Known.{
  fits, presented, require_api_key_answer, is_known, bears_key, fails_first,
}
use smugbox.Auth.Session.{encode, add}
use smugbox.Db.{ApiKey}
use smugbox.World.{World, execute, io, query}
use smugbox.Exec.{ok, err}
use smugbox.Tests.Data.{world, album, codec}
use smugbox.Common.{
  ℕ, Text, List, codes, none, [], ◌∷◌, ◌++◌, true, refl, length, trim_space, ◌≡◌, any, ◌&&◌,
  if◌then◌else◌, text_eq, not,
}
use smugbox.Api.{internal_error}
use smugbox.Db.ApiKeys.{create_api_key, revoke_api_key, list_api_keys_by_prefix}

-- A key of 43 letters, whatever the bytes are.
abbrev plain : Text
plain = codes "abcdefghijklmnopqrstuvwxyzABCDEFGHIJKLMNOPQ"

abbrev base64 : Text → Text
base64 bytes = plain

base64_printable :
    (bytes : Text)
    → length bytes ≡ 32
    → (length (base64 bytes) ≡ 43) × (trim_space (base64 bytes) ≡ base64 bytes)
unfolding trim_space
base64_printable bytes e = (refl, refl)

abbrev bytes : List ℕ
bytes = plain

create_key-require_api_key_example :
    (require_api_key
      (λ t. t)
      9
      (scheme ++ plain)
      (create_key (λ t. t) base64 (codes "k1") (codes "laptop") 3 bytes world).1).0
    ≡ ok tt
unfolding create_key execute io create_api_key
create_key-require_api_key_example =
    create_key-require_api_key (λ t. t) base64 base64_printable (codes "k1") (codes "laptop") 3 9
      bytes plain world refl refl

abbrev key : ApiKey
key = record {
  id = codes "k1";
  prefix = codes "abcdefgh";
  hash = plain;
  label = [];
  created_at = 1;
  last_used_at = none;
  revoked_at = none;
}

abbrev with_keys : World
with_keys = record world {
  tables = record world.tables { api_keys = key ∷ record key { id = codes "k2" } ∷ [] };
}

revoke_key-require_api_key_example :
    any
      (λ k. fits (λ t. t) (presented (scheme ++ plain)) k && not (text_eq k.id (codes "k1")))
      with_keys.tables.api_keys
    ≡ true
unfolding revoke_key require_api_key execute io revoke_api_key text_eq trim_space query
    list_api_keys_by_prefix
revoke_key-require_api_key_example =
    revoke_key-require_api_key (λ t. t) (codes "k1") (scheme ++ plain) 7 9 with_keys refl refl

require_api_key_answer_example : (require_api_key (λ t. t) 9 (scheme ++ plain) with_keys).0 ≡ (
    if not (bears_key (scheme ++ plain))
    then err unauthorized
    else if fails_first with_keys
    then err internal_error
    else if is_known (λ t. t) (scheme ++ plain) with_keys.tables
    then ok tt
    else err unauthorized)
require_api_key_answer_example = require_api_key_answer (λ t. t) 9 (scheme ++ plain) with_keys

abbrev unlocked_value : Text
unlocked_value = encode codec (add (next_session codec 3 none) album.id album.password_version)
