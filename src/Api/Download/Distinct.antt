-- ===== src/Api/Download/Distinct.antt =====
-- The names of the entries of a zip differ.
use smugbox.Api.Download.{
  Seen, times_seen, candidate, decimal, free_name, numbered, unique_zip_name, ext_or_empty,
  path_ext,
}
use smugbox.Api.Download.Names.{
  IsLower, IsCounted, decimal-injective, digits-All, times_seen-any, pigeonhole,
}
use mathlib.Core.List.{append_cancel_left, append_cancel_right}
use smugbox.Common.{
  ℕ, Text, ◌∷◌, List, any, length, ◌≡◌, ◌<◌, suc, map, text_eq, arith, ◌++◌, sym, ◌+◌, ◌∙◌,
  Bool-cases, [], ap, ◌==◌, refl, inl, inr, subst, zero, text_eq_refl, take, if◌then◌else◌, ◌-◌,
  is_empty, codes,
}

head_off : (c : ℕ) (s t : Text) → c ∷ s ≡ c ∷ t → s ≡ t
head_off c s t e = cc

-- The keys are compared with the later names.
abbrev keys : Seen → List Text
keys seen = map (λ k. k.0) seen

any-keys :
    (k : Text) (seen : Seen) → any (λ j. text_eq j.0 k) seen ≡ any (λ j. text_eq j k) (keys seen)
any-keys k [] = refl
any-keys k (j ∷ seen) = ground (arith, any-keys k seen)

length-keys : (seen : Seen) → length (keys seen) ≡ length seen
length-keys [] = refl
length-keys (j ∷ seen) = ground (arith, length-keys seen)

module _ (lower : Text → Text) (law : IsLower lower) where
  abbrev key : Text → Text → ℕ → Text
  key base ext i = lower (candidate base ext i)

  key-eq :
      (base ext : Text) (i : ℕ) → key base ext i ≡ lower base ++ (b'-' ∷ (decimal i ++ lower ext))
  unfolding candidate
  key-eq base ext i =
      law.dash base (decimal i ++ ext)
      ∙ ap (λ s. lower base ++ (b'-' ∷ s)) (law.number (decimal i) ext (digits-All (suc i) i [] tt))

  key-injective : (base ext : Text) (i j : ℕ) → key base ext i ≡ key base ext j → i ≡ j
  key-injective base ext i j e =
      let same = sym (key-eq base ext i) ∙ (e ∙ key-eq base ext j) in
      let behind = head_off b'-' (decimal i ++ lower ext) (decimal j ++ lower ext) (
        append_cancel_left (lower base) (b'-' ∷ (decimal i ++ lower ext))
          (b'-' ∷ (decimal j ++ lower ext)) same) in
      decimal-injective i j (append_cancel_right (decimal i) (decimal j) (lower ext) behind)

  free_name-unseen :
      (fuel i k : ℕ) (base ext : Text) (seen : Seen)
      → k < fuel
      → times_seen (key base ext (i + k)) seen ≡ 0
      → times_seen (lower (free_name lower fuel base ext i seen)) seen ≡ 0
  unfolding free_name
  free_name-unseen zero i k base ext seen h e = elim h [ ]
  free_name-unseen (suc fuel) i zero base ext seen h e = ground (arith, e)
  free_name-unseen (suc fuel) i (suc k) base ext seen h e =
      elim (Bool-cases (times_seen (key base ext i) seen == 0)) [
        | inl free ↦ rw free (ground (arith, free))
        | inr taken ↦ rw taken (
            free_name-unseen fuel (suc i) k base ext seen (omega arith)
              (subst (λ n. times_seen (key base ext n) seen ≡ 0) (omega arith) e))
      ]

  numbered-unseen :
      (base ext : Text) (i : ℕ) (seen : Seen)
      → IsCounted seen
      → times_seen (lower (free_name lower (suc (length seen)) base ext i seen)) seen ≡ 0
  numbered-unseen base ext i seen c =
      let (k, lt, free) =
        pigeonhole (key base ext) (key-injective base ext) (suc (length seen)) i (keys seen)
          (omega (arith, length-keys seen)) in
      free_name-unseen (suc (length seen)) i k base ext seen lt
        (times_seen-any (key base ext (i + k)) seen c (any-keys (key base ext (i + k)) seen ∙ free))

  -- What a name that is given out leaves behind.
  pub record IsFresh (seen : Seen) (r : Text × Seen) : Type 0 where
    pub new : times_seen (lower r.0) seen ≡ 0
    pub given : 0 < times_seen (lower r.0) r.1
    pub kept : (k : Text) → times_seen k r.1 ≡ 0 → times_seen k seen ≡ 0
    pub counted : IsCounted r.1

  times_seen-count :
      (j k : Text) (n : ℕ) (seen : Seen)
      → 0 < n
      → times_seen k ((j, n) ∷ seen) ≡ 0
      → times_seen k seen ≡ 0
  times_seen-count j k n seen h e = ground (arith, e)

  times_seen-own : (j : Text) (n : ℕ) (seen : Seen) → times_seen j ((j, n) ∷ seen) ≡ n
  times_seen-own j n seen = ground (arith, text_eq_refl j)

  numbered-IsFresh :
      (name named : Text) (n : ℕ) (seen : Seen)
      → IsCounted seen
      → IsFresh seen (numbered lower name n ((lower named, suc n) ∷ seen))
  numbered-IsFresh name named n seen c =
      let ext = ext_or_empty (path_ext name) in
      let base = take (length name - length ext) name in
      let there = (lower named, suc n) ∷ seen in
      let free = free_name lower (suc (length there)) base ext (suc n) there in
      let unseen = numbered-unseen base ext (suc n) there (omega arith, c) in
      record {
        new = times_seen-count (lower named) (lower free) (suc n) seen (omega arith) unseen;
        given = omega (arith, times_seen-own (lower free) 1 there);
        kept = λ k e.
            times_seen-count (lower named) k (suc n) seen (omega arith)
              (times_seen-count (lower free) k 1 there (omega arith) e);
        counted = (omega arith, (omega arith, c));
      }

  first-IsFresh :
      (named : Text) (seen : Seen)
      → IsCounted seen
      → times_seen (lower named) seen ≡ 0
      → IsFresh seen (named, (lower named, suc (times_seen (lower named) seen)) ∷ seen)
  first-IsFresh named seen c e = record {
    new = e;
    given = omega (arith, times_seen-own (lower named) (suc (times_seen (lower named) seen)) seen);
    kept = λ k.
        times_seen-count (lower named) k (suc (times_seen (lower named) seen)) seen (omega arith);
    counted = (omega arith, c);
  }

  pub unique_zip_name-IsFresh :
      (seen : Seen) (name : Text) → IsCounted seen → IsFresh seen (unique_zip_name lower seen name)
  unfolding unique_zip_name
  unique_zip_name-IsFresh seen name c =
      let named = if is_empty name then codes "photo.jpg" else name in
      elim (Bool-cases (times_seen (lower named) seen == 0)) [
        | inl new ↦ rw new (first-IsFresh named seen c (ground (arith, new)))
        | inr old ↦ rw old (numbered-IsFresh named named (times_seen (lower named) seen) seen c)
      ]
