-- ===== src/Auth/Limiter/Rate.antt =====
-- The bound on guesses: how many attempts on one key a limiter lets through over time.
use native.Mathlib.Nat.{add-mul}
use smugbox.Auth.Limiter.Buckets.{All-lookup}
use smugbox.Auth.Limiter.Available.{available, available-allow, allowed-allow, units, left}
use smugbox.Auth.Limiter.Valid.{IsValid, IsSound, IsValid-later, allow-IsValid}
use smugbox.Auth.Limiter.{
  RateLimiter, allowed, denied, Verdict, take_token, sweep, admit, answer, allow, Bucket, allow_new,
  lookup, token, level,
}
use smugbox.Common.{
  ℕ, Text, List, Bool, ◌≡◌, Option, ◌≤◌, ◌∷◌, true, arith, ◌+◌, false, if◌then◌else◌, ◌-◌, ◌*◌,
  some, [], text_eq, refl, none, ◌&&◌, suc, subst, text_eq_iff,
}

pub record Attempt : Type 0 where
  pub at : ℕ
  pub key : Text

-- The attempts come after `now`, in the order of their times, and before `end`.
abbrev pub InOrder : ℕ → List Attempt → ℕ → Type 0
InOrder now [] end = now ≤ end
InOrder now (a ∷ more) end = (now ≤ a.at) × InOrder a.at more end

abbrev is_allowed : Verdict → Bool
is_allowed allowed = true
is_allowed (denied wait) = false

-- How many of the attempts on `key` are let through, in a run from `l`.
unfoldable pub allowed_count : RateLimiter → Text → List Attempt → ℕ
allowed_count l key [] = 0
allowed_count l key (a ∷ more) =
    let (l', v) = allow a.at a.key l in
    let rest = allowed_count l' key more in
    if text_eq a.key key && is_allowed v then suc rest else rest

refill-take_token :
    (l : RateLimiter) (key : Text) (b : Bucket)
    → ((take_token key b l).0.refill ≡ l.refill) × ((take_token key b l).0.capacity ≡ l.capacity)
unfolding take_token
refill-take_token l key b = ground arith

refill-sweep :
    (l : RateLimiter) (now : ℕ) (force : Bool)
    → ((sweep now force l).refill ≡ l.refill) × ((sweep now force l).capacity ≡ l.capacity)
unfolding sweep
refill-sweep l now force = ground arith

refill-admit :
    (l : RateLimiter) (now : ℕ) (key : Text)
    → ((admit now key l).0.refill ≡ l.refill) × ((admit now key l).0.capacity ≡ l.capacity)
unfolding admit
refill-admit l now key =
    ground (arith, refill-take_token l key (record { tokens = l.capacity; last = now }))

refill-answer :
    (l : RateLimiter) (now : ℕ) (key : Text) (o : Option Bucket)
    → ((answer now key l o).0.refill ≡ l.refill) × ((answer now key l o).0.capacity ≡ l.capacity)
unfolding answer allow_new
refill-answer l now key none = ground (
  arith,
  refill-admit l now key,
  refill-admit (sweep now true l) now key,
  refill-sweep l now true,
)
refill-answer l now key (some b) =
    refill-take_token l key (record { tokens = level l now b; last = now })

refill-allow :
    (l : RateLimiter) (now : ℕ) (key : Text)
    → ((allow now key l).0.refill ≡ l.refill) × ((allow now key l).0.capacity ≡ l.capacity)
unfolding allow
refill-allow l now key = ground (
  arith,
  refill-answer (sweep now false l) now key (lookup key (sweep now false l).buckets),
  refill-sweep l now false,
)

units_growth :
    (l : RateLimiter) (now t : ℕ) (key : Text) (o : Option Bucket)
    → IsValid l now
    → now ≤ t
    → lookup key l.buckets ≡ o
    → units l t o ≤ units l now o + (t - now) * l.refill
units_growth l now t key none v h e = omega arith
units_growth l now t key (some b) v h e =
    let s = All-lookup (IsSound l.capacity now) key l.buckets b e v.sound in
    let elapsed : t - b.last ≡ (t - now) + (now - b.last) = omega (arith, s.touched) in
    let refilled : (t - b.last) * l.refill ≡ (t - now) * l.refill + (now - b.last) * l.refill =
      rw elapsed (add-mul _ _ _) in
    omega arith

units-le : (l : RateLimiter) (now : ℕ) (o : Option Bucket) → units l now o ≤ l.capacity
units-le l now none = omega arith
units-le l now (some b) = omega arith

-- What is available grows by the refill at most.
available_growth :
    (l : RateLimiter) (now t : ℕ) (key : Text)
    → IsValid l now
    → now ≤ t
    → available l t key ≤ available l now key + (t - now) * l.refill
unfolding available
available_growth l now t key v h = units_growth l now t key (lookup key l.buckets) v h refl

available-le : (l : RateLimiter) (now : ℕ) (key : Text) → available l now key ≤ l.capacity
unfolding available
available-le l now key = units-le l now (lookup key l.buckets)

later-end : (now end : ℕ) (more : List Attempt) → InOrder now more end → now ≤ end
later-end now end [] h = h
later-end now end (a ∷ more) (p, h) = omega (arith, later-end a.at end more h)

-- The account of one attempt: a token let through was there.
count_step :
    (same : Bool) (v : Verdict) (count here after x : ℕ)
    → after ≡ (if same then left v here else here)
    → (same ≡ true → v ≡ allowed → token ≤ here)
    → token * count ≤ after + x
    → token * (if same && is_allowed v then suc count else count) ≤ here + x
count_step true allowed count here after x e paid h = omega (arith, paid refl refl)
count_step true (denied wait) count here after x e paid h = omega arith
count_step false v count here after x e paid h = omega arith

allowed_count-le_available :
    (l : RateLimiter) (now end : ℕ) (key : Text) (more : List Attempt)
    → IsValid l now
    → InOrder now more end
    → token * allowed_count l key more ≤ available l now key + (end - now) * l.refill
unfolding allowed_count
allowed_count-le_available l now end key [] v h = omega arith
allowed_count-le_available l now end key (a ∷ more) v (p, h) =
    let v' = IsValid-later p v in
    let (l', verdict) = allow a.at a.key l in
    let ih = allowed_count-le_available l' a.at end key more (allow-IsValid l a.at a.key v') h in
    let growth = available_growth l now a.at key v p in
    let (refill, capacity) = refill-allow l a.at a.key in
    let elapsed : end - now ≡ (end - a.at) + (a.at - now) =
      omega (arith, later-end a.at end more h) in
    let refilled : (end - now) * l.refill ≡ (end - a.at) * l.refill + (a.at - now) * l.refill =
      rw elapsed (add-mul _ _ _) in
    let step =
      count_step (text_eq a.key key) verdict (allowed_count l' key more) (available l a.at key)
        (available l' a.at key) ((end - a.at) * l.refill)
        (available-allow l a.at a.key key v'.unique)
        (λ same e.
          subst (λ k. token ≤ available l a.at k) ((text_eq_iff a.key key).0 same)
            (allowed-allow l a.at a.key v'.unique e))
        (rw refill at ih) in
    omega (arith, step, growth, refilled)

-- From a valid limiter, and whatever the keys of the attempts in between, those on one key that are
-- let through from `now` to `end` are paid for by a full bucket and the refill of that time. The
-- attempts come in the order of their times.
pub allowed_count-le :
    (l : RateLimiter) (now end : ℕ) (key : Text) (more : List Attempt)
    → IsValid l now
    → InOrder now more end
    → token * allowed_count l key more ≤ l.capacity + (end - now) * l.refill
allowed_count-le l now end key more v h =
    omega (arith, allowed_count-le_available l now end key more v h, available-le l now key)
