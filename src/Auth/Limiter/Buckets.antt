-- ===== src/Auth/Limiter/Buckets.antt =====
-- The map from keys to buckets of backend/internal/auth/ratelimit.go, as an association list.
use smugbox.Common.{
  ℕ, suc, ◌≡◌, refl, Bool, Option, none, some, List, [], ◌∷◌, arith, if◌then◌else◌, length, filter,
  All, Text, text_eq, text_eq_iff, Bool-cases, inl, inr, is_some, subst, ap,
}

pub record Bucket : Type 0 where
  pub tokens : ℕ
  pub last : ℕ

pub record Entry : Type 0 where
  pub key : Text
  pub bucket : Bucket

unfoldable pub lookup : Text → List Entry → Option Bucket
lookup k [] = none
lookup k (e ∷ m) = if text_eq e.key k then some e.bucket else lookup k m

-- Overwrites the bucket of a key, or adds it.
unfoldable pub insert : Text → Bucket → List Entry → List Entry
insert k b [] = record { key = k; bucket = b } ∷ []
insert k b (e ∷ m) = if text_eq e.key k then record e { bucket = b } ∷ m else e ∷ insert k b m

-- No two entries have one key.
abbrev pub HasUniqueKeys : List Entry → Type 0
HasUniqueKeys [] = Unit
HasUniqueKeys (e ∷ m) = (lookup e.key m ≡ none) × HasUniqueKeys m

pub lookup-insert :
    (k j : Text) (b : Bucket) (m : List Entry)
    → lookup j (insert k b m) ≡ (if text_eq k j then some b else lookup j m)
unfolding lookup insert
lookup-insert k j b [] = refl
lookup-insert k j b (e ∷ m) =
    ground (arith, text_eq_iff k j, text_eq_iff e.key k, text_eq_iff e.key j, lookup-insert k j b m)

pub insert-HasUniqueKeys :
    (k : Text) (b : Bucket) (m : List Entry) → HasUniqueKeys m → HasUniqueKeys (insert k b m)
unfolding insert lookup
insert-HasUniqueKeys k b [] h = (refl, tt)
insert-HasUniqueKeys k b (e ∷ m) (new, h) = ground (
  arith,
  insert-HasUniqueKeys k b m h,
  lookup-insert k e.key b m,
  text_eq_iff e.key k,
  text_eq_iff k e.key,
)

pub length-insert :
    (k : Text) (b : Bucket) (m : List Entry)
    → length (insert k b m) ≡ (if is_some (lookup k m) then length m else suc (length m))
unfolding insert lookup
length-insert k b [] = refl
length-insert k b (e ∷ m) = ground (arith, length-insert k b m)

pub All-insert :
    (P : Entry → Type 0) (k : Text) (b : Bucket) (m : List Entry)
    → ((j : Text) → P (record { key = j; bucket = b }))
    → All P m
    → All P (insert k b m)
unfolding insert
All-insert P k b [] p h = (p k, tt)
All-insert P k b (e ∷ m) p (q, h) = ground (arith, All-insert P k b m p h, p e.key)

pub All-lookup :
    (P : Entry → Type 0) (k : Text) (m : List Entry) (b : Bucket)
    → lookup k m ≡ some b
    → All P m
    → P (record { key = k; bucket = b })
unfolding lookup
All-lookup P k [] b e h = absurd (cc)
All-lookup P k (x ∷ m) b e (q, h) = elim (Bool-cases (text_eq x.key k)) [
  | inl same ↦
      let here : x ≡ record { key = k; bucket = b } = ground (arith, text_eq_iff x.key k) in
      subst P here q
  | inr other ↦ All-lookup P k m b (ground arith) h
]

pub lookup-filter-none :
    (k : Text) (p : Entry → Bool) (m : List Entry)
    → lookup k m ≡ none
    → lookup k (filter p m) ≡ none
unfolding lookup
lookup-filter-none k p [] e = refl
lookup-filter-none k p (x ∷ m) e = ground (arith, lookup-filter-none k p m)

pub filter-HasUniqueKeys :
    (p : Entry → Bool) (m : List Entry) → HasUniqueKeys m → HasUniqueKeys (filter p m)
filter-HasUniqueKeys p [] h = tt
filter-HasUniqueKeys p (x ∷ m) (new, h) =
    ground (arith, filter-HasUniqueKeys p m h, lookup-filter-none x.key p m new)

-- The bucket that a test on entries keeps.
abbrev pub keep : (Entry → Bool) → Text → Option Bucket → Option Bucket
keep p k none = none
keep p k (some b) = if p (record { key = k; bucket = b }) then some b else none

pub lookup-filter :
    (k : Text) (p : Entry → Bool) (m : List Entry)
    → HasUniqueKeys m
    → lookup k (filter p m) ≡ keep p k (lookup k m)
unfolding lookup
lookup-filter k p [] h = refl
lookup-filter k p (x ∷ m) (new, h) = elim (Bool-cases (text_eq x.key k)) [
  | inl same ↦
      let here : x.key ≡ k = (text_eq_iff x.key k).0 same in
      let gone : lookup k (filter p m) ≡ none =
        lookup-filter-none k p m (subst (λ j. lookup j m ≡ none) here new) in
      let there : x ≡ record { key = k; bucket = x.bucket } = cc (here) in
      rw same (ground (arith, gone, same, ap p there))
  | inr other ↦ rw other (ground (arith, other, lookup-filter k p m h))
]
