-- ===== src/Api/Access.antt =====
-- A visitor's access to an album: albumAccess of backend/internal/api/access.go and unlockAlbum of
-- backend/internal/api/unlock.go. The clock is in nanoseconds.
pub mod Unlocked
pub mod Held
use smugbox.Auth.Session.{Codec, Session, new_session, granted, add, encode, decode}
use smugbox.Auth.Limiter.{RateLimiter, Verdict, allowed, denied, allow}
use smugbox.Slug.{valid_slug}
use smugbox.World.{World, query}
use smugbox.Db.{Album, protected}
use smugbox.Db.Albums.{get_album_by_slug}
use smugbox.Exec.{Exec, Result, ok, err, fail, lift, attempt, not_found, answered, ◌>>=◌}
use smugbox.Api.{internal_error}
use smugbox.Common.{
  ℕ, Option, Text, ◌/◌, Bool, bind, some, false, if◌then◌else◌, take, none, not, true, ◌++◌, ◌∷◌,
}

abbrev pub session_ttl : ℕ
session_ttl = 86400

abbrev pub max_unlock_password_len : ℕ
max_unlock_password_len = 256

-- Seconds since the epoch.
abbrev pub unix : ℕ → ℕ
unix now = now / 1000000000

module _ (codec : Codec) where
  abbrev pub session_grants : Option Session → Album → Bool
  session_grants none a = false
  session_grants (some s) a = granted s a.id a.password_version

  -- Whether the request with this cookie may see the album's content.
  unfoldable pub album_access : ℕ → Option Text → Album → Bool
  unfolding decode granted
  album_access now cookie a = if not (protected a) then true else elim cookie [
    | none ↦ false
    | some value ↦ session_grants (decode codec (unix now) value) a
  ]

  abbrev pub with_grants : Option Session → Session → Session
  with_grants none s = s
  with_grants (some old) s = record s { grants = old.grants }

  -- A new session that keeps what the visitor had unlocked before.
  unfoldable pub next_session : ℕ → Option Text → Session
  unfolding new_session decode
  next_session now cookie =
      with_grants (bind cookie (λ value. decode codec (unix now) value))
        (new_session (unix now) session_ttl)

  module _ (check_password : Text → Text → Bool) where
    -- The answer once the album has been looked up: no cookie for a public album, and the same
    -- refusal for an unknown album and a wrong password.
    unfoldable pub judge : ℕ → Option Text → Text → Result Album → Result (Option Text)
    unfolding next_session encode add
    judge now cookie password (err not_found) = err (answered 401 "invalid_password")
    judge now cookie password (err e) = err internal_error
    judge now cookie password (ok a) =
        if not (protected a)
        then ok none
        else if check_password a.password_hash password
        then ok (some (encode codec (add (next_session now cookie) a.id a.password_version)))
        else err (answered 401 "invalid_password")

    abbrev pub limited : Verdict → Exec World (Option Text) → Exec World (Option Text)
    limited (denied wait) more = fail (answered 429 "rate_limited")
    limited allowed more = more

    abbrev pub check : ℕ → Text → Option Text → Result Text → Exec World (Option Text)
    check now slug cookie body = do
      password ← lift body
      r ← attempt (query (get_album_by_slug slug))
      lift (judge now cookie (take max_unlock_password_len password) r)

    -- `unlockAlbum`, with the visitor's address. A slug that no album can have costs no token.
    unfoldable pub unlock_album :
        ℕ
        → Text
        → Text
        → Option Text
        → Result Text
        → RateLimiter
        → RateLimiter × Exec World (Option Text)
    unfolding judge allow valid_slug
    unlock_album now ip slug cookie body l =
        if not (valid_slug slug)
        then (l, fail (answered 401 "invalid_password"))
        else let (l', verdict) = allow now (ip ++ (b'|' ∷ slug)) l in
          (l', limited verdict (check now slug cookie body))
