-- ===== src/Auth/Limiter.antt =====
-- The token bucket limiter (backend/internal/auth/ratelimit.go).
--
-- The clock reads in nanoseconds. The source counts tokens in float64; here a bucket counts units,
-- `token` of which make one token, so that a refill of `refill` tokens per minute is exactly
-- `refill` units per nanosecond. Rounding of floats is therefore not modelled.
mod Buckets
pub mod Available
pub mod Valid
pub mod Rate
pub use Buckets.{Bucket, Entry}
use smugbox.Common.{
  ℕ, ◌+◌, ◌-◌, ◌*◌, ◌/◌, min, Bool, true, false, not, ◌&&◌, ◌||◌, Option, none, some, List, [], ◌∷◌,
  ltb, leb, if◌then◌else◌, length, filter, Text,
}
unfoldable pub use Buckets.{lookup, insert}

-- Nanoseconds in a minute: the units of one token.
abbrev pub token : ℕ
token = 60000000000

-- Ten minutes.
abbrev pub sweep_interval : ℕ
sweep_interval = 600000000000

pub record RateLimiter : Type 0 where
  pub buckets : List Entry
  pub capacity : ℕ
  pub refill : ℕ
  pub max_keys : ℕ
  pub last_sweep : ℕ

unfoldable pub new_rate_limiter : ℕ → ℕ → ℕ → ℕ → RateLimiter
new_rate_limiter capacity refill max_keys now = record {
  buckets = [];
  capacity = capacity * token;
  refill = refill;
  max_keys = max_keys;
  last_sweep = now;
}

-- The units in a bucket after the refill since it was last touched.
abbrev pub level : RateLimiter → ℕ → Bucket → ℕ
level l now b = min l.capacity (b.tokens + (now - b.last) * l.refill)

abbrev pub is_full : RateLimiter → ℕ → Entry → Bool
is_full l now e = leb l.capacity (level l now e.bucket)

-- Forgets full buckets, at most once in `sweep_interval` unless forced.
unfoldable pub sweep : ℕ → Bool → RateLimiter → RateLimiter
sweep now force l =
    if not force && ltb (now - l.last_sweep) sweep_interval
    then l
    else record l { last_sweep = now; buckets = filter (λ e. not (is_full l now e)) l.buckets }

-- Either one token is taken, or the answer says how many nanoseconds are missing.
pub data Verdict : Type 0 where
  allowed : Verdict
  denied : ℕ → Verdict

-- The last lines of `Allow`, for the bucket of `key`.
unfoldable pub take_token : Text → Bucket → RateLimiter → RateLimiter × Verdict
take_token key b l =
    if leb token b.tokens
    then (
      record l { buckets = insert key (record b { tokens = b.tokens - token }) l.buckets },
      allowed,
    )
    else (record l { buckets = insert key b l.buckets }, denied ((token - b.tokens) / l.refill))

-- A key with no bucket is refused where the map is full, and else starts with a full bucket.
unfoldable pub admit : ℕ → Text → RateLimiter → RateLimiter × Verdict
unfolding take_token
admit now key l =
    if leb l.max_keys (length l.buckets)
    then (l, denied (token / l.refill))
    else take_token key (record { tokens = l.capacity; last = now }) l

-- A full map is swept once more, by force, before a new key is admitted.
unfoldable pub allow_new : ℕ → Text → RateLimiter → RateLimiter × Verdict
unfolding sweep admit
allow_new now key l =
    admit now key (if leb l.max_keys (length l.buckets) then sweep now true l else l)

-- What `Allow` does once the key has been looked up.
unfoldable pub answer : ℕ → Text → RateLimiter → Option Bucket → RateLimiter × Verdict
unfolding allow_new
answer now key l none = allow_new now key l
answer now key l (some b) = take_token key (record { tokens = level l now b; last = now }) l

-- `Allow` at the time `now`.
unfoldable pub allow : ℕ → Text → RateLimiter → RateLimiter × Verdict
unfolding answer lookup insert
allow now key l = let l' = sweep now false l in answer now key l' (lookup key l'.buckets)
