-- ===== src/Common/Lists.antt =====
-- Lists measured by native numbers, and Boolean tests over lists.
use Prim.Native.Nat.{ℕ, zero, suc, ◌+◌, ◌≤◌, ◌<◌, min}
use mathlib.Core.Path.{◌≡◌, refl, subst}
use mathlib.Core.Logic.{inl, inr}
use mathlib.Core.Bool.{Bool, true, false, not, ◌&&◌, ◌||◌}
use mathlib.Core.List.{List, [], ◌∷◌, ◌++◌, map}
use mathlib.Core.Option.{Option, none, some}
use native.Mathlib.Omega.{arith}
use smugbox.Common.Tests.{if◌then◌else◌, Bool-cases}

module _ {ℓ} {A : Type ℓ} where
  abbrev pub length : List A → ℕ
  length [] = 0
  length (x ∷ xs) = suc (length xs)

  abbrev pub drop : ℕ → List A → List A
  drop zero xs = xs
  drop (suc n) [] = []
  drop (suc n) (x ∷ xs) = drop n xs

  abbrev pub take : ℕ → List A → List A
  take zero xs = []
  take (suc n) [] = []
  take (suc n) (x ∷ xs) = x ∷ take n xs

  abbrev pub any : (A → Bool) → List A → Bool
  any p [] = false
  any p (x ∷ xs) = p x || any p xs

  abbrev pub all : (A → Bool) → List A → Bool
  all p [] = true
  all p (x ∷ xs) = p x && all p xs

  -- The first element that passes the test.
  abbrev pub find? : (A → Bool) → List A → Option A
  find? p [] = none
  find? p (x ∷ xs) = if p x then some x else find? p xs

  -- The elements that pass the test.
  abbrev pub filter : (A → Bool) → List A → List A
  filter p [] = []
  filter p (x ∷ xs) = let rest = filter p xs in if p x then x ∷ rest else rest

  pub length-append : (xs ys : List A) → length (xs ++ ys) ≡ length xs + length ys
  length-append [] ys = omega arith
  length-append (x ∷ xs) ys = omega (arith, length-append xs ys)

  pub length-take : (n : ℕ) (xs : List A) → length (take n xs) ≡ min n (length xs)
  length-take zero xs = omega arith
  length-take (suc n) [] = omega arith
  length-take (suc n) (x ∷ xs) = omega (arith, length-take n xs)

  pub length-filter : (p : A → Bool) (xs : List A) → length (filter p xs) ≤ length xs
  length-filter p [] = omega arith
  length-filter p (x ∷ xs) = ground (arith, length-filter p xs)

  pub any-append : (p : A → Bool) (xs ys : List A) → any p (xs ++ ys) ≡ (any p xs || any p ys)
  any-append p [] ys = refl
  any-append p (x ∷ xs) ys = ground (arith, any-append p xs ys)

  pub all-append : (p : A → Bool) (xs ys : List A) → all p (xs ++ ys) ≡ (all p xs && all p ys)
  all-append p [] ys = refl
  all-append p (x ∷ xs) ys = ground (arith, all-append p xs ys)

module _ {ℓ κ} {A : Type ℓ} (P : A → Type κ) where
  -- Every element satisfies `P`; a tuple, which the tactics read and build.
  abbrev pub All : List A → Type κ
  All [] = Unit
  All (x ∷ xs) = P x × All xs

  pub All-append : (xs ys : List A) → All xs → All ys → All (xs ++ ys)
  All-append [] ys h k = k
  All-append (x ∷ xs) ys (p, h) k = (p, All-append xs ys h k)

  pub All-filter : (p : A → Bool) (xs : List A) → All xs → All (filter p xs)
  All-filter p [] h = tt
  All-filter p (x ∷ xs) (q, h) = ground (arith, All-filter p xs h)

  pub All-find? : (p : A → Bool) (xs : List A) (x : A) → find? p xs ≡ some x → All xs → P x
  All-find? p [] x e h = absurd (cc)
  All-find? p (y ∷ xs) x e (q, h) = elim (Bool-cases (p y)) [
    | inl pass ↦ let e' : y ≡ x = ground arith in subst P e' q
    | inr fail ↦ All-find? p xs x (ground arith) h
  ]

module _ {ℓ κ κ'} {A : Type ℓ} {P : A → Type κ} {Q : A → Type κ'} where
  pub All-map : ((x : A) → P x → Q x) → (xs : List A) → All P xs → All Q xs
  All-map f [] h = tt
  All-map f (x ∷ xs) (p, h) = (f x p, All-map f xs h)

pub find?-sound {ℓ} :
    {A : Type ℓ} (p : A → Bool) (xs : List A) (x : A) → find? p xs ≡ some x → p x ≡ true
find?-sound p [] x e = absurd (cc)
find?-sound p (y ∷ xs) x e = elim (Bool-cases (p y)) [
  | inl pass ↦ let e' : y ≡ x = ground arith in subst (λ z. p z ≡ true) e' pass
  | inr fail ↦ find?-sound p xs x (ground arith)
]

-- Whether every number below `n` passes the test.
abbrev pub all_below : ℕ → (ℕ → Bool) → Bool
all_below zero p = true
all_below (suc n) p = p n && all_below n p

pub all_below_sound : (n : ℕ) (p : ℕ → Bool) (x : ℕ) → all_below n p ≡ true → x < n → p x ≡ true
all_below_sound zero p x h lt = absurd (omega arith)
all_below_sound (suc n) p x h lt = ground (arith, all_below_sound n p x)

module _ {ℓ κ} {A : Type ℓ} (P : A → Type κ) where
  -- What holds of every element holds of those that a test finds absent.
  pub All-of_any :
      (p : A → Bool) (xs : List A) → any p xs ≡ false → ((x : A) → p x ≡ false → P x) → All P xs
  All-of_any p [] h f = tt
  All-of_any p (x ∷ xs) h f = (f x (ground arith), All-of_any p xs (ground arith) f)

  pub All-of_filter :
      (p : A → Bool) (xs : List A) → ((x : A) → p x ≡ true → P x) → All P (filter p xs)
  All-of_filter p [] f = tt
  All-of_filter p (x ∷ xs) f = elim (Bool-cases (p x)) [
    | inl pass ↦ rw pass (f x pass, All-of_filter p xs f)
    | inr fail ↦ rw fail (All-of_filter p xs f)
  ]

  pub All-mapped :
      (f : A → A) (xs : List A) → ((x : A) → P x → P (f x)) → All P xs → All P (map f xs)
  All-mapped f [] g h = tt
  All-mapped f (x ∷ xs) g (p, h) = (g x p, All-mapped f xs g h)

module _ {A : Type 0} (R : A → A → Type 0) where
  -- Every element is related to those behind it.
  abbrev pub Pairwise : List A → Type 0
  Pairwise [] = Unit
  Pairwise (x ∷ xs) = All (R x) xs × Pairwise xs

  pub Pairwise-append_last :
      (xs : List A) (x : A) → Pairwise xs → All (λ y. R y x) xs → Pairwise (xs ++ x ∷ [])
  Pairwise-append_last [] x h k = (tt, tt)
  Pairwise-append_last (y ∷ xs) x (a, h) (r, k) =
      (All-append (R y) xs (x ∷ []) a (r, tt), Pairwise-append_last xs x h k)

  pub Pairwise-filter : (p : A → Bool) (xs : List A) → Pairwise xs → Pairwise (filter p xs)
  Pairwise-filter p [] h = tt
  Pairwise-filter p (x ∷ xs) (a, h) = elim (Bool-cases (p x)) [
    | inl pass ↦ rw pass (All-filter (R x) p xs a, Pairwise-filter p xs h)
    | inr fail ↦ rw fail (Pairwise-filter p xs h)
  ]

  pub Pairwise-map :
      (f : A → A)
      → ((x y : A) → R x y → R (f x) (f y))
      → (xs : List A) → Pairwise xs
      → Pairwise (map f xs)
  Pairwise-map f g [] h = tt
  Pairwise-map f g (x ∷ xs) (a, h) = (related xs a, Pairwise-map f g xs h)
    where
      related : (ys : List A) → All (R x) ys → All (R (f x)) (map f ys)
      related [] h = tt
      related (y ∷ ys) (r, h) = (g x y r, related ys h)

  -- What a test picks is related to what it leaves, where the relation is symmetric.
  pub Pairwise-split :
      ((x y : A) → R x y → R y x)
      → (p : A → Bool) (xs : List A) → Pairwise xs
      → All (λ y. All (R y) (filter p xs)) (filter (λ x. not (p x)) xs)
  Pairwise-split s p [] h = tt
  Pairwise-split s p (x ∷ xs) (a, h) = elim (Bool-cases (p x)) [
    | inl pass ↦ rw pass (
        joined (filter (λ z. not (p z)) xs) (All-filter (R x) (λ z. not (p z)) xs a)
          (Pairwise-split s p xs h))
    | inr fail ↦ rw fail (All-filter (R x) p xs a, Pairwise-split s p xs h)
  ]
    where
      joined :
          (ys : List A)
          → All (R x) ys
          → All (λ y. All (R y) (filter p xs)) ys
          → All (λ y. R y x × All (R y) (filter p xs)) ys
      joined [] b c = tt
      joined (y ∷ ys) (r, b) (q, c) = ((s x y r, q), joined ys b c)

module _ {ℓ} {A : Type ℓ} where
  pub any-filter_le : (p q : A → Bool) (xs : List A) → any p (filter q xs) ≡ true → any p xs ≡ true
  any-filter_le p q [] h = h
  any-filter_le p q (x ∷ xs) h = ground (arith, any-filter_le p q xs)

  pub find?_of_any :
      (p : A → Bool) (xs : List A) → any p xs ≡ true → (x : A) × (find? p xs ≡ some x)
  find?_of_any p [] h = absurd (cc)
  find?_of_any p (x ∷ xs) h = elim (Bool-cases (p x)) [
    | inl pass ↦ (x, rw pass refl)
    | inr fail ↦ let (y, e) = find?_of_any p xs (ground arith) in (y, rw fail e)
  ]

  pub any_of_find? : (p : A → Bool) (xs : List A) (x : A) → find? p xs ≡ some x → any p xs ≡ true
  any_of_find? p [] x h = absurd (cc)
  any_of_find? p (y ∷ xs) x h = ground (arith, any_of_find? p xs x)

  pub find?-append :
      (p : A → Bool) (xs ys : List A) (x : A) → find? p xs ≡ some x → find? p (xs ++ ys) ≡ some x
  find?-append p [] ys x h = absurd (cc)
  find?-append p (y ∷ xs) ys x h = ground (arith, find?-append p xs ys x)

  pub any-map_same :
      (p : A → Bool) (f : A → A) (xs : List A)
      → ((x : A) → p (f x) ≡ p x)
      → any p (map f xs) ≡ any p xs
  any-map_same p f [] h = refl
  any-map_same p f (x ∷ xs) h = rw (h x, any-map_same p f xs h)

-- What a filter keeps satisfies what follows from the test.
pub All-filter_with {ℓ κ κ'} :
    {A : Type ℓ} (P : A → Type κ) (Q : A → Type κ') (p : A → Bool) (xs : List A)
    → ((x : A) → P x → p x ≡ true → Q x)
    → All P xs
    → All Q (filter p xs)
All-filter_with P Q p [] f h = tt
All-filter_with P Q p (x ∷ xs) f (q, h) = elim (Bool-cases (p x)) [
  | inl pass ↦ rw pass (f x q pass, All-filter_with P Q p xs f h)
  | inr fail ↦ rw fail (All-filter_with P Q p xs f h)
]

pub Pairwise-weaken :
    {A : Type 0} {R S : A → A → Type 0}
    → ((x y : A) → R x y → S x y)
    → (xs : List A) → Pairwise R xs
    → Pairwise S xs
Pairwise-weaken f [] h = tt
Pairwise-weaken f (x ∷ xs) (a, h) = (All-map (λ y. f x y) xs a, Pairwise-weaken f xs h)
