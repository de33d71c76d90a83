-- ===== src/Api/Keys.antt =====
-- requireAPIKey (backend/internal/api/publish_auth.go): what stands before the handlers of the publish
-- API. It returns where the next handler is called. `header` is the Authorization header, empty where
-- there is none; the clock is in nanoseconds.
pub mod Known
use smugbox.Auth.ApiKey.{api_key_prefix, verify_api_key}
use smugbox.Api.{or_internal}
use smugbox.World.{World, query, execute}
use smugbox.Exec.{Exec, Result, Failure, ok, fail, return, attempt, answered, ◌>>=◌, ◌>>◌}
use smugbox.Db.{ApiKey}
use smugbox.Db.ApiKeys.{list_api_keys_by_prefix, touch_api_key}
use smugbox.Common.{
  ℕ, Text, Bool, Option, none, some, if◌then◌else◌, codes, starts_with, trim_space, drop, length,
  find?, not, is_some, ◌&&◌, ltb, ◌-◌, true,
}

abbrev pub scheme : Text
scheme = codes "Bearer "

-- touchInterval, a minute.
abbrev pub touch_interval : ℕ
touch_interval = 60000000000

abbrev pub unauthorized : Failure
unauthorized = answered 401 "unauthorized"

-- The time of the last use is written at most once a minute; an error is only logged.
abbrev pub is_stale : ℕ → ApiKey → Bool
is_stale now k = elim k.last_used_at [ none ↦ true | some at ↦ ltb touch_interval (now - at) ]

unfoldable pub touch : ℕ → ApiKey → Exec World (Unit {0})
touch now k =
    if is_stale now k
    then (do attempt (execute (λ t. ok (touch_api_key k.id now t))); return tt)
    else return tt

module _ (sha256 : Text → Text) where
  abbrev pub is_good : Text → ApiKey → Bool
  is_good plain k = not (is_some k.revoked_at) && verify_api_key sha256 plain k.hash

  abbrev pub admit : ℕ → Option ApiKey → Exec World (Unit {0})
  admit now none = fail unauthorized
  admit now (some k) = touch now k

  abbrev pub look_up : ℕ → Text → Option Text → Exec World (Unit {0})
  look_up now plain none = fail unauthorized
  look_up now plain (some prefix) = do
    r ← attempt (query (λ t. ok (list_api_keys_by_prefix prefix t)))
    keys ← or_internal r
    admit now (find? (is_good plain) keys)

  unfoldable pub require_api_key : ℕ → Text → Exec World (Unit {0})
  unfolding api_key_prefix touch or_internal
  require_api_key now header =
      if not (starts_with scheme header)
      then fail unauthorized
      else let plain = trim_space (drop (length scheme) header) in
        look_up now plain (api_key_prefix plain)
