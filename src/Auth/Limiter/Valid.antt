-- ===== src/Auth/Limiter/Valid.antt =====
-- The invariant of the limiter's map: it never holds more than `max_keys` keys.
use smugbox.Auth.Limiter.Buckets.{
  HasUniqueKeys, filter-HasUniqueKeys, insert-HasUniqueKeys, length-insert, All-insert,
}
use smugbox.Auth.Limiter.{
  RateLimiter, new_rate_limiter, sweep, take_token, admit, answer, allow, Entry, allow_new, lookup,
  insert, token, Bucket, sweep_interval, some, level, is_full,
}
use smugbox.Common.{
  ℕ, Text, length, ◌≤◌, arith, Bool, is_some, Bool-cases, false, All, All-map, not, leb, Option,
  ◌&&◌, ◌≡◌, inl, ltb, true, ◌-◌, inr, ◌⊎◌, length-filter, ◌<◌, refl, All-filter, none,
}

-- A bucket is never fuller than the capacity, nor touched in the future.
pub record IsSound (capacity now : ℕ) (e : Entry) : Type 0 where
  pub filled : e.bucket.tokens ≤ capacity
  pub touched : e.bucket.last ≤ now

pub record IsValid (l : RateLimiter) (now : ℕ) : Type 0 where
  pub unique : HasUniqueKeys l.buckets
  pub bounded : length l.buckets ≤ l.max_keys
  pub sound : All (IsSound l.capacity now) l.buckets
  pub swept : l.last_sweep ≤ now

pub IsValid-later : {l : RateLimiter} {now t : ℕ} → now ≤ t → IsValid l now → IsValid l t
IsValid-later {l} {now} {t} h v = record {
  unique = v.unique;
  bounded = v.bounded;
  sound = All-map (λ e s. record { filled = s.filled; touched = omega arith }) l.buckets v.sound;
  swept = omega arith;
}

pub new_rate_limiter-IsValid :
    (capacity refill max_keys now : ℕ) → IsValid (new_rate_limiter capacity refill max_keys now) now
unfolding new_rate_limiter
new_rate_limiter-IsValid capacity refill max_keys now = record {
  unique = tt;
  bounded = omega arith;
  sound = tt;
  swept = omega arith;
}

sweep-IsValid :
    (l : RateLimiter) (now : ℕ) (force : Bool) → IsValid l now → IsValid (sweep now force l) now
unfolding sweep
sweep-IsValid l now force v =
    elim (Bool-cases (not force && ltb (now - l.last_sweep) sweep_interval)) [
      | inl early ↦ rw early v
      | inr due ↦ rw due (record {
        unique = filter-HasUniqueKeys _ l.buckets v.unique;
        bounded = omega (arith, length-filter (λ e. not (is_full l now e)) l.buckets, v.bounded);
        sound = All-filter (IsSound l.capacity now) _ l.buckets v.sound;
        swept = omega arith;
      })
    ]

-- There is room for the key: it has a bucket, or one more fits.
abbrev HasRoom : RateLimiter → Text → Type 0
HasRoom l key = (is_some (lookup key l.buckets) ≡ true) ⊎ (length l.buckets < l.max_keys)

insert-IsValid :
    (l : RateLimiter) (now n : ℕ) (key : Text)
    → IsValid l now
    → HasRoom l key
    → n ≤ l.capacity
    → IsValid (record l { buckets = insert key (record { tokens = n; last = now }) l.buckets }) now
insert-IsValid l now n key v room h = record {
  unique = insert-HasUniqueKeys key _ l.buckets v.unique;
  bounded =
      ground
        (arith, length-insert key (record { tokens = n; last = now }) l.buckets, v.bounded, room);
  sound =
      All-insert (IsSound l.capacity now) key _ l.buckets
        (λ j. record { filled = h; touched = omega arith }) v.sound;
  swept = v.swept;
}

take_token-IsValid :
    (l : RateLimiter) (now n : ℕ) (key : Text)
    → IsValid l now
    → HasRoom l key
    → n ≤ l.capacity
    → IsValid (take_token key (record { tokens = n; last = now }) l).0 now
unfolding take_token
take_token-IsValid l now n key v room h = elim (Bool-cases (leb token n)) [
  | inl enough ↦ rw enough (insert-IsValid l now (n - token) key v room (omega arith))
  | inr short ↦ rw short (insert-IsValid l now n key v room h)
]

admit-IsValid :
    (l : RateLimiter) (now : ℕ) (key : Text) → IsValid l now → IsValid (admit now key l).0 now
unfolding admit
admit-IsValid l now key v = elim (Bool-cases (leb l.max_keys (length l.buckets))) [
  | inl crowded ↦ rw crowded v
  | inr room ↦
      rw room (take_token-IsValid l now l.capacity key v (inr (ground arith)) (omega arith))
]

answer-IsValid :
    (l : RateLimiter) (now : ℕ) (key : Text) (o : Option Bucket)
    → lookup key l.buckets ≡ o
    → IsValid l now
    → IsValid (answer now key l o).0 now
unfolding answer allow_new
answer-IsValid l now key none e v = elim (Bool-cases (leb l.max_keys (length l.buckets))) [
  | inl crowded ↦ rw crowded (admit-IsValid (sweep now true l) now key (sweep-IsValid l now true v))
  | inr room ↦ rw room (admit-IsValid l now key v)
]
answer-IsValid l now key (some b) e v =
    take_token-IsValid l now (level l now b) key v (inl (rw e)) (omega arith)

-- An attempt keeps the invariant: at most `max_keys` keys, each once, no bucket above the capacity
-- or touched in the future.
pub allow-IsValid :
    (l : RateLimiter) (now : ℕ) (key : Text) → IsValid l now → IsValid (allow now key l).0 now
unfolding allow
allow-IsValid l now key v =
    answer-IsValid (sweep now false l) now key (lookup key (sweep now false l).buckets) refl
      (sweep-IsValid l now false v)
