-- ===== src/Api/Keys/Known.antt =====
-- Whom requireAPIKey lets through.
use smugbox.Api.Keys.{
  scheme, require_api_key, is_good, unauthorized, admit, look_up, touch, trim_space,
}
use smugbox.Auth.ApiKey.{api_key_prefix, api_key_prefix_len}
use smugbox.World.{World, query, io}
use smugbox.Exec.{ok, err}
use smugbox.Db.{ApiKey, Tables}
use smugbox.Db.ApiKeys.{list_api_keys_by_prefix}
use smugbox.Common.{
  ℕ, Text, Bool, List, Option, none, some, ◌≡◌, true, text_eq, ◌&&◌, any, find?, filter, take,
  starts_with, ◌∷◌, false, drop, ◌*◌, arith, length, [], refl, leb, if◌then◌else◌, not, Bool-cases,
  inl, ltb, inr, is_some,
}
use smugbox.Api.{or_internal, internal_error}

abbrev pub presented : Text → Text
presented header = trim_space (drop (length scheme) header)

-- The header has the scheme, and behind it a text that is long enough for a key.
abbrev pub bears_key : Text → Bool
bears_key header =
    starts_with scheme header && leb (2 * api_key_prefix_len) (length (presented header))

-- The first operation outside the program fails.
abbrev pub fails_first : World → Bool
fails_first w = elim w.faults [ [] ↦ false | b ∷ rest ↦ b ]

module _ (sha256 : Text → Text) where
  -- The row of a key that is presented: its prefix and its hash fit, and it is not revoked.
  abbrev pub fits : Text → ApiKey → Bool
  fits plain k =
      text_eq k.prefix (take api_key_prefix_len plain)
      && (not (is_some k.revoked_at) && text_eq (sha256 plain) k.hash)

  -- Whether a key that is presented has a row and is not revoked.
  abbrev pub is_known : Text → Tables → Bool
  is_known header t = any (fits (presented header)) t.api_keys

  any-find? :
      (p q : ApiKey → Bool) (ks : List ApiKey) (k : ApiKey)
      → find? q (filter p ks) ≡ some k
      → any (λ k. p k && q k) ks ≡ true
  any-find? p q [] k e = absurd (cc)
  any-find? p q (j ∷ ks) k e = ground (arith, any-find? p q ks k)

  find?-any :
      (p q : ApiKey → Bool) (ks : List ApiKey)
      → find? q (filter p ks) ≡ none
      → any (λ k. p k && q k) ks ≡ false
  find?-any p q [] e = refl
  find?-any p q (j ∷ ks) e = ground (arith, find?-any p q ks)

  touch_ok : (now : ℕ) (k : ApiKey) (w : World) → (touch now k w).0 ≡ ok tt
  unfolding touch
  touch_ok now k w = ground arith

  admitted :
      (now : ℕ) (plain : Text) (ks : List ApiKey) (w : World) (o : Option ApiKey)
      → find?
          (is_good sha256 plain)
          (filter (λ k. text_eq k.prefix (take api_key_prefix_len plain)) ks)
        ≡ o
      → (admit sha256 now o w).0 ≡ (if any (fits plain) ks then ok tt else err unauthorized)
  admitted now plain ks w none e =
      rw
        (find?-any (λ k. text_eq k.prefix (take api_key_prefix_len plain)) (is_good sha256 plain) ks
          e)
        refl
  admitted now plain ks w (some k) e =
      rw
        (any-find? (λ k. text_eq k.prefix (take api_key_prefix_len plain)) (is_good sha256 plain) ks
          k e)
        (touch_ok now k w)

  looked_up :
      (now : ℕ) (plain : Text) (fs : List Bool) (w : World)
      → (look_up sha256 now plain
          (some (take api_key_prefix_len plain))
          (record w { faults = fs })).0
        ≡ (if fails_first (record w { faults = fs })
            then err internal_error
            else if any (fits plain) w.tables.api_keys
            then ok tt
            else err unauthorized)
  unfolding query io list_api_keys_by_prefix or_internal
  looked_up now plain [] w = admitted now plain w.tables.api_keys (record w { faults = [] }) _ refl
  looked_up now plain (true ∷ fs) w = refl
  looked_up now plain (false ∷ fs) w =
      admitted now plain w.tables.api_keys (record w { faults = fs }) _ refl

  -- The next handler is called exactly where the header bears a key that has a row and is not
  -- revoked and the lookup does not fail; the other answers are 500 where it fails, and 401. Errors
  -- of the note of its use do not matter.
  pub require_api_key_answer :
      (now : ℕ) (header : Text) (w : World)
      → (require_api_key sha256 now header w).0 ≡ (
          if not (bears_key header)
          then err unauthorized
          else if fails_first w
          then err internal_error
          else if is_known header w.tables
          then ok tt
          else err unauthorized)
  unfolding require_api_key api_key_prefix
  require_api_key_answer now header w = elim (Bool-cases (starts_with scheme header)) [
    | inl bearer ↦ elim (Bool-cases (ltb (length (presented header)) (2 * api_key_prefix_len))) [
      | inl short ↦ ground (arith, bearer, short)
      | inr long ↦
          let enough : leb (2 * api_key_prefix_len) (length (presented header)) ≡ true =
            ground arith in
          rw (bearer, long, enough) (looked_up now (presented header) w.faults w)
    ]
    | inr other ↦ rw other refl
  ]
