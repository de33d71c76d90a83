-- ===== src/Tests/Auth.antt =====
-- The limiter, the session and the slugs.
use smugbox.Auth.Limiter.{RateLimiter, new_rate_limiter, allow, token, sweep}
use smugbox.Auth.Limiter.Valid.{IsValid, new_rate_limiter-IsValid, allow-IsValid}
use smugbox.Auth.Limiter.Available.{available, available-sweep}
use smugbox.Auth.Limiter.Rate.{Attempt, allowed_count, allowed_count-le}
use smugbox.Auth.Session.{add, granted, encode, decode}
use smugbox.Auth.Session.Grants.{granted-add_self}
use smugbox.Auth.Session.Cookie.{decode-encode, decode-IsSigned, IsSigned}
use smugbox.Slug.{slugify, valid_slug, slug_suffix, max_slug_len}
use smugbox.Slug.Valid.{slugify-valid_slug}
use smugbox.Slug.Words.{IsSlug, valid_slug_iff}
use smugbox.Tests.Data.{codec, session}
use smugbox.Common.{
  Text, List, ◌*◌, true, codes, ◌≡◌, false, ◌∷◌, ◌≤◌, arith, some, ◌++◌, ◌↔◌, [], ◌+◌, ◌-◌, refl,
}

-- Two tokens, one more each minute.
abbrev limiter : RateLimiter
limiter = new_rate_limiter 2 1 10 0

abbrev visitor : Text
visitor = codes "10.0.0.1|hike"

abbrev tries : List Attempt
tries =
    record { at = 1; key = visitor }
    ∷ record { at = 2; key = codes "other" }
    ∷ record { at = 3; key = visitor }
    ∷ record { at = 4; key = visitor }
    ∷ []

allowed_count-le_example :
    token * allowed_count limiter visitor tries ≤ limiter.capacity + (60 - 0) * limiter.refill
allowed_count-le_example =
    allowed_count-le limiter 0 60 visitor tries (new_rate_limiter-IsValid 2 1 10 0)
      (omega arith, (omega arith, (omega arith, (omega arith, omega arith))))

available-sweep_example : available (sweep 5 true limiter) 9 visitor ≡ available limiter 9 visitor
available-sweep_example =
    available-sweep limiter 5 9 true visitor (new_rate_limiter-IsValid 2 1 10 0).unique
      (omega arith)

allow-IsValid_example : IsValid (allow 0 visitor limiter).0 0
allow-IsValid_example = allow-IsValid limiter 0 visitor (new_rate_limiter-IsValid 2 1 10 0)

granted-add_self_example : granted (add session (codes "a9") 5) (codes "a9") 4 ≡ false
granted-add_self_example = granted-add_self session (codes "a9") 5 4

decode-encode_example : decode codec 499 (encode codec session) ≡ some session
decode-encode_example = decode-encode codec 499 session

decode-IsSigned_example : IsSigned codec 499 (encode codec session) session
decode-IsSigned_example =
    decode-IsSigned codec 499 (encode codec session) session (decode-encode codec 499 session)

slugify-valid_slug_example :
    (valid_slug (slugify (λ r. false) (codes "Summer, 2024!")) ≡ true)
    × (valid_slug (slugify (λ r. false) (codes "Summer, 2024!") ++ (b'-' ∷ codes "bcd5")) ≡ true)
unfolding slug_suffix
slugify-valid_slug_example =
    slugify-valid_slug (λ r. false) (codes "Summer, 2024!") (1 ∷ 2 ∷ 3 ∷ 67 ∷ 9 ∷ []) (codes "bcd5")
      (9 ∷ []) refl

valid_slug_iff_example :
    (valid_slug (codes "alps-2024") ≡ true) ↔ (IsSlug (codes "alps-2024") × (9 ≤ max_slug_len + 5))
valid_slug_iff_example = valid_slug_iff (codes "alps-2024")
