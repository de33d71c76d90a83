-- ===== src/Db/ApiKeys.antt =====
-- backend/internal/db/apikeys.go: the statements on API keys.
use smugbox.Db.{ApiKey, Tables, check_affected}
use smugbox.Common.{
  Text, List, ℕ, Bool, filter, map, text_eq, if◌then◌else◌, ◌&&◌, some, not, is_some, any, ◌++◌,
  ◌∷◌, [],
}
use smugbox.Exec.{Result, err, internal, ok}

unfoldable pub create_api_key : ApiKey → Tables → Result Tables
create_api_key k t =
    if any (λ j. text_eq j.id k.id) t.api_keys
    then err internal
    else ok (record t { api_keys = t.api_keys ++ k ∷ [] })

unfoldable pub list_api_keys_by_prefix : Text → Tables → List ApiKey
list_api_keys_by_prefix prefix t = filter (λ k. text_eq k.prefix prefix) t.api_keys

unfoldable pub touch_api_key : Text → ℕ → Tables → Tables
touch_api_key id at t = record t {
  api_keys =
      map (λ k. if text_eq k.id id then record k { last_used_at = some at } else k) t.api_keys;
}

abbrev pub in_force : Text → ApiKey → Bool
in_force id k = text_eq k.id id && not (is_some k.revoked_at)

-- Only a key that is not revoked yet is met.
unfoldable pub revoke_api_key : Text → ℕ → Tables → Result Tables
revoke_api_key id at t = check_affected (any (in_force id) t.api_keys) (record t {
  api_keys = map (λ k. if in_force id k then record k { revoked_at = some at } else k) t.api_keys;
})
