-- ===== src/Api/Download/Names.antt =====
-- The names that uniqueZipName tries are all different, so one of them is free.
use smugbox.Api.Download.{digits, decimal, times_seen, Seen}
use smugbox.Common.{
  ℕ, Text, List, ◌≡◌, ◌<◌, ◌≤◌, zero, suc, ◌+◌, ◌*◌, ◌-◌, ◌/◌, ◌%◌, arith, refl, ◌≢◌, All, ◌∷◌,
  Bool-cases, sym, ◌++◌, any, filter, length, ltb, [], text_eq, not, ◌∙◌, false, true, text_eq_iff,
  inl, ap, length-filter, subst, inr,
}

-- What a text of digits says, behind the number `v`.
abbrev value : ℕ → Text → ℕ
value v [] = v
value v (c ∷ s) = value (10 * v + (c - 48)) s

value-digits : (f n : ℕ) (acc : Text) → n < f → value 0 (digits f n acc) ≡ value n acc
unfolding digits
value-digits zero n acc h = elim h [ ]
value-digits (suc f) n acc h = elim (Bool-cases (ltb n 10)) [
  | inl small ↦ rw small (ap (λ v. value v acc) (omega arith))
  | inr large ↦ rw large (
      value-digits f (n / 10) ((b'0' + n % 10) ∷ acc) (ground (arith, large))
      ∙ ap (λ v. value v acc) (omega arith))
]

pub decimal-injective : (i j : ℕ) → decimal i ≡ decimal j → i ≡ j
decimal-injective i j e =
    sym (value-digits (suc i) i [] (omega arith))
    ∙ (ap (value 0) e ∙ value-digits (suc j) j [] (omega arith))

abbrev pub AllDigits : Text → Type 0
AllDigits s = All (λ c. (48 ≤ c) × (c ≤ 57)) s

pub digits-All : (f n : ℕ) (acc : Text) → AllDigits acc → AllDigits (digits f n acc)
unfolding digits
digits-All zero n acc h = h
digits-All (suc f) n acc h = elim (Bool-cases (ltb n 10)) [
  | inl small ↦ rw small (ground (arith, small), h)
  | inr large ↦ rw large (digits-All f (n / 10) ((b'0' + n % 10) ∷ acc) (omega arith, h))
]

-- What is documented of strings.ToLower: it goes rune by rune and leaves dashes and digits alone.
pub record IsLower (lower : Text → Text) : Type 0 where
  pub dash : (s t : Text) → lower (s ++ (b'-' ∷ t)) ≡ lower s ++ (b'-' ∷ lower t)
  pub number : (ds t : Text) → AllDigits ds → lower (ds ++ t) ≡ ds ++ lower t

-- Whether no key of the list is this one; a key of the list counts at least once.
abbrev pub IsCounted : Seen → Type 0
IsCounted seen = All (λ k. 0 < k.1) seen

pub times_seen-any :
    (k : Text) (seen : Seen)
    → IsCounted seen
    → any (λ j. text_eq j.0 k) seen ≡ false
    → times_seen k seen ≡ 0
times_seen-any k [] h e = refl
times_seen-any k ((j, n) ∷ seen) h e = ground (arith, times_seen-any k seen h.1)

module _ (f : ℕ → Text) (apart : (i j : ℕ) → f i ≡ f j → i ≡ j) where
  abbrev without : Text → List Text → List Text
  without k ks = filter (λ j. not (text_eq j k)) ks

  length-without :
      (k : Text) (ks : List Text)
      → any (λ j. text_eq j k) ks ≡ true
      → length (without k ks) < length ks
  length-without k [] e = absurd (cc)
  length-without k (j ∷ ks) e =
      ground (arith, length-without k ks, length-filter (λ j. not (text_eq j k)) ks)

  any-without :
      (k l : Text) (ks : List Text)
      → k ≢ l
      → any (λ j. text_eq j l) (without k ks) ≡ any (λ j. text_eq j l) ks
  any-without k l [] n = refl
  any-without k l (j ∷ ks) n =
      ground (arith, any-without k l ks n, text_eq_iff j k, text_eq_iff j l, n)

  -- Among more names than there are keys, one is no key.
  pub pigeonhole :
      (fuel i : ℕ) (ks : List Text)
      → length ks < fuel
      → (k : ℕ) × (k < fuel) × (any (λ j. text_eq j (f (i + k))) ks ≡ false)
  pigeonhole zero i ks h = elim h [ ]
  pigeonhole (suc fuel) i ks h = elim (Bool-cases (any (λ j. text_eq j (f i)) ks)) [
    | inl taken ↦
        let (k, lt, free) =
          pigeonhole fuel (suc i) (without (f i) ks)
            (omega (arith, length-without (f i) ks taken)) in
        let here : suc i + k ≡ i + suc k = omega arith in
        let other : f i ≢ f (i + suc k) = λ e. omega (arith, apart i (i + suc k) e) in
        (
          suc k,
          omega arith,
          sym (any-without (f i) (f (i + suc k)) ks other)
              ∙ subst (λ n. any (λ j. text_eq j (f n)) (without (f i) ks) ≡ false) here free,
        )
    | inr free ↦
        (0, omega arith, subst (λ n. any (λ j. text_eq j (f n)) ks ≡ false) (omega arith) free)
  ]
