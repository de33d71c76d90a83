-- ===== src/Auth/Limiter/Available.antt =====
-- What a limiter has available for a key, and what `allow` does to it: a key with no bucket counts
-- as one whose bucket is full, so that a sweep is invisible.
use smugbox.Common.{
  ℕ, ◌+◌, ◌-◌, ◌*◌, ◌≤◌, ◌≡◌, refl, Bool, not, ◌&&◌, Option, none, some, arith, ltb, Text,
  Bool-cases, inl, inr, if◌then◌else◌, text_eq, leb, length, true, text_eq_iff, false,
}
use native.Mathlib.Nat.{mul-le-mul_right, add-mul, zero-mul}
use smugbox.Auth.Limiter.Buckets.{
  HasUniqueKeys, lookup-filter, keep, lookup-insert, filter-HasUniqueKeys, lookup-filter-none,
}
use smugbox.Auth.Limiter.{
  Bucket, RateLimiter, level, is_full, sweep, sweep_interval, lookup, Verdict, insert, take_token,
  token, allowed, denied, allow_new, allow, admit, answer,
}

abbrev pub units : RateLimiter → ℕ → Option Bucket → ℕ
units l now none = l.capacity
units l now (some b) = level l now b

unfoldable pub available : RateLimiter → ℕ → Text → ℕ
available l now key = units l now (lookup key l.buckets)

pub level_mono : (l : RateLimiter) (now t : ℕ) (b : Bucket) → now ≤ t → level l now b ≤ level l t b
level_mono l now t b h =
    let later : (now - b.last) * l.refill ≤ (t - b.last) * l.refill =
      mul-le-mul_right _ (omega arith) in
    omega arith

level_split :
    (l : RateLimiter) (now t : ℕ) (b : Bucket)
    → b.last ≤ now
    → now ≤ t
    → level l t b ≡ level l t (record { tokens = level l now b; last = now })
level_split l now t b p q =
    let elapsed : t - b.last ≡ (t - now) + (now - b.last) = omega arith in
    let refilled : (t - b.last) * l.refill ≡ (t - now) * l.refill + (now - b.last) * l.refill =
      rw elapsed (add-mul _ _ _) in
    omega arith

-- A full bucket stays full.
units-keep :
    (l : RateLimiter) (now t : ℕ) (key : Text) (o : Option Bucket)
    → now ≤ t
    → units l t (keep (λ e. not (is_full l now e)) key o) ≡ units l t o
units-keep l now t key none h = refl
units-keep l now t key (some b) h = ground (arith, level_mono l now t b)

-- A sweep changes nothing of what a key has available, then or later, if each key has one bucket.
pub available-sweep :
    (l : RateLimiter) (now t : ℕ) (force : Bool) (key : Text)
    → HasUniqueKeys l.buckets
    → now ≤ t
    → available (sweep now force l) t key ≡ available l t key
unfolding available sweep
available-sweep l now t force key u h =
    elim (Bool-cases (not force && ltb (now - l.last_sweep) sweep_interval)) [
      | inl early ↦ rw early
      | inr due ↦ rw (due, lookup-filter key _ l.buckets u) (units-keep l now t key _ h)
    ]

level_now :
    (l : RateLimiter) (now n : ℕ)
    → n ≤ l.capacity
    → level l now (record { tokens = n; last = now }) ≡ n
level_now l now n h =
    let still : (now - now) * l.refill ≡ 0 =
      rw (let e : now - now ≡ 0 = omega arith in e) (zero-mul l.refill) in
    omega arith

-- What is left after an attempt that had `n` units.
abbrev pub left : Verdict → ℕ → ℕ
left allowed n = n - token
left (denied wait) n = n

available-insert :
    (l : RateLimiter) (now n : ℕ) (key j : Text)
    → n ≤ l.capacity
    → units l now (lookup j (insert key (record { tokens = n; last = now }) l.buckets))
      ≡ (if text_eq key j then n else units l now (lookup j l.buckets))
available-insert l now n key j h =
    rw (lookup-insert key j _ l.buckets) (ground (arith, level_now l now n h))

available-take_token :
    (l : RateLimiter) (now n : ℕ) (key j : Text)
    → n ≤ l.capacity
    → let r = take_token key (record { tokens = n; last = now }) l in
      available r.0 now j ≡ (if text_eq key j then left r.1 n else available l now j)
unfolding take_token available
available-take_token l now n key j h = elim (Bool-cases (leb token n)) [
  | inl enough ↦ rw (enough) (available-insert l now (n - token) key j (omega arith))
  | inr short ↦ rw (short) (available-insert l now n key j h)
]

take_token-allowed :
    (l : RateLimiter) (now n : ℕ) (key : Text)
    → (take_token key (record { tokens = n; last = now }) l).1 ≡ allowed
    → token ≤ n
unfolding take_token
take_token-allowed l now n key e = ground arith

pub sweep-HasUniqueKeys :
    (l : RateLimiter) (now : ℕ) (force : Bool)
    → HasUniqueKeys l.buckets
    → HasUniqueKeys (sweep now force l).buckets
unfolding sweep
sweep-HasUniqueKeys l now force u =
    ground (arith, filter-HasUniqueKeys (λ e. not (is_full l now e)) l.buckets u)

lookup-sweep-none :
    (l : RateLimiter) (now : ℕ) (force : Bool) (key : Text)
    → lookup key l.buckets ≡ none
    → lookup key (sweep now force l).buckets ≡ none
unfolding sweep
lookup-sweep-none l now force key e =
    ground (arith, lookup-filter-none key (λ x. not (is_full l now x)) l.buckets e)

available-none :
    (l : RateLimiter) (now : ℕ) (key : Text)
    → lookup key l.buckets ≡ none
    → available l now key ≡ l.capacity
unfolding available
available-none l now key e = rw e

available-admit :
    (l : RateLimiter) (now : ℕ) (key j : Text)
    → lookup key l.buckets ≡ none
    → let r = admit now key l in
      available r.0 now j
      ≡ (if text_eq key j then left r.1 (available l now j) else available l now j)
unfolding admit
available-admit l now key j e = elim (Bool-cases (leb l.max_keys (length l.buckets))) [
  | inl crowded ↦ rw crowded (ground arith)
  | inr room ↦ rw room (
      ground (
        arith,
        available-take_token l now l.capacity key j (omega arith),
        available-none l now key e,
        text_eq_iff key j,
      ))
]

available-allow_new :
    (l : RateLimiter) (now : ℕ) (key j : Text)
    → HasUniqueKeys l.buckets
    → lookup key l.buckets ≡ none
    → let r = allow_new now key l in
      available r.0 now j
      ≡ (if text_eq key j then left r.1 (available l now j) else available l now j)
unfolding allow_new
available-allow_new l now key j u e = elim (Bool-cases (leb l.max_keys (length l.buckets))) [
  | inl crowded ↦ rw crowded (
      rw (← available-sweep l now now true j u (omega arith))
        (available-admit (sweep now true l) now key j (lookup-sweep-none l now true key e)))
  | inr room ↦ rw room (available-admit l now key j e)
]

available-answer :
    (l : RateLimiter) (now : ℕ) (key j : Text) (o : Option Bucket)
    → HasUniqueKeys l.buckets
    → lookup key l.buckets ≡ o
    → let r = answer now key l o in
      available r.0 now j
      ≡ (if text_eq key j then left r.1 (available l now j) else available l now j)
unfolding answer
available-answer l now key j none u e = available-allow_new l now key j u e
available-answer l now key j (some b) u e =
    let here : available l now key ≡ level l now b = unfold available in rw e in
    ground (
      arith,
      available-take_token l now (level l now b) key j (omega arith),
      text_eq_iff key j,
      here,
    )

-- One attempt changes what is available for its own key alone: by the token that it takes, and by
-- nothing if it is denied. Each key must have one bucket before it.
pub available-allow :
    (l : RateLimiter) (now : ℕ) (key j : Text)
    → HasUniqueKeys l.buckets
    → let r = allow now key l in
      available r.0 now j
      ≡ (if text_eq key j then left r.1 (available l now j) else available l now j)
unfolding allow
available-allow l now key j u =
    rw (← available-sweep l now now false j u (omega arith))
      (available-answer (sweep now false l) now key j _ (sweep-HasUniqueKeys l now false u) refl)

allowed-take_token :
    (l : RateLimiter) (now n : ℕ) (key : Text)
    → (take_token key (record { tokens = n; last = now }) l).1 ≡ allowed
    → token ≤ n
unfolding take_token
allowed-take_token l now n key e = ground arith

allowed-admit :
    (l : RateLimiter) (now : ℕ) (key : Text) → (admit now key l).1 ≡ allowed → token ≤ l.capacity
unfolding admit
allowed-admit l now key e = ground (arith, allowed-take_token l now l.capacity key)

allowed-answer :
    (l : RateLimiter) (now : ℕ) (key : Text) (o : Option Bucket)
    → lookup key l.buckets ≡ o
    → (answer now key l o).1 ≡ allowed
    → token ≤ available l now key
unfolding answer allow_new available sweep
allowed-answer l now key none e h =
    ground (arith, allowed-admit l now key, allowed-admit (sweep now true l) now key)
allowed-answer l now key (some b) e h =
    rw e (ground (arith, allowed-take_token l now (level l now b) key))

-- Only a key with a whole token is let through, if each key has one bucket.
pub allowed-allow :
    (l : RateLimiter) (now : ℕ) (key : Text)
    → HasUniqueKeys l.buckets
    → (allow now key l).1 ≡ allowed
    → token ≤ available l now key
unfolding allow
allowed-allow l now key u h =
    rw (← available-sweep l now now false key u (omega arith))
      (allowed-answer (sweep now false l) now key _ refl h)
