-- ===== src/Db/Tree/Grow.antt =====
-- The downward recursion of a cascade ends with a set that holds every child of its members.
use smugbox.Db.Folders.{has_id, grow, is_in}
use smugbox.Db.{Folder}
use smugbox.Common.{
  ◌≢◌, List, ℕ, Bool, Text, length, filter, ◌++◌, ◌+◌, ◌≤◌, Pairwise, All, not, map, ◌≡◌,
  Pairwise-filter, suc, true, any, false, ◌∷◌, Bool-cases, arith, ◌==◌, find?, inl, any-append,
  text_eq_iff, inr, [], text_eq, All-filter, ◌∙◌, refl, zero, Pairwise-split, sym,
}

abbrev pub Distinct : Folder → Folder → Type 0
Distinct f g = f.id ≢ g.id

abbrev children : List Text → List Folder → List Folder
children found rest = filter (λ f. is_in found f.parent_id) rest

abbrev others : List Text → List Folder → List Folder
others found rest = filter (λ f. not (is_in found f.parent_id)) rest

abbrev grown : List Text → List Folder → List Text
grown found rest = found ++ map (λ f. f.id) (children found rest)

is_in-grown :
    (found : List Text) (rest : List Folder) (j : Text)
    → is_in found j ≡ true
    → is_in (grown found rest) j ≡ true
is_in-grown found rest j h =
    ground (arith, any-append (text_eq j) found (map (λ f. f.id) (children found rest)))

is_in-map : (fs : List Folder) (j : Text) → is_in (map (λ f. f.id) fs) j ≡ any (has_id j) fs
is_in-map [] j = refl
is_in-map (f ∷ fs) j = ground (arith, is_in-map fs j, text_eq_iff j f.id, text_eq_iff f.id j)

pub grow_mono :
    (n : ℕ) (found : List Text) (rest : List Folder) (j : Text)
    → is_in found j ≡ true
    → is_in (grow n found rest).0 j ≡ true
unfolding grow
grow_mono zero found rest j h = h
grow_mono (suc n) found rest j h = elim (Bool-cases (length (children found rest) == 0)) [
  | inl ended ↦ rw ended h
  | inr more ↦
      rw more (grow_mono n (grown found rest) (others found rest) j (is_in-grown found rest j h))
]

none_of_length :
    (p : Folder → Bool) (fs : List Folder) → length (filter p fs) ≡ 0 → All (λ f. p f ≡ false) fs
none_of_length p [] h = tt
none_of_length p (f ∷ fs) h = elim (Bool-cases (p f)) [
  | inl pass ↦ let h' = rw pass at h in absurd (omega arith)
  | inr fail ↦ (fail, none_of_length p fs (rw fail at h))
]

length-others :
    (found : List Text) (rest : List Folder)
    → length (children found rest) + length (others found rest) ≡ length rest
length-others found [] = refl
length-others found (f ∷ rest) = ground (arith, length-others found rest)

-- With as many rounds as there are rows, no child is left out.
pub grow_closed :
    (n : ℕ) (found : List Text) (rest : List Folder)
    → length rest ≤ n
    → All (λ f. is_in (grow n found rest).0 f.parent_id ≡ false) (grow n found rest).1
unfolding grow
grow_closed zero found [] h = tt
grow_closed zero found (f ∷ rest) h = absurd (omega arith)
grow_closed (suc n) found rest h = elim (Bool-cases (length (children found rest) == 0)) [
  | inl ended ↦ rw ended (none_of_length (λ f. is_in found f.parent_id) rest (ground arith))
  | inr more ↦ rw more (
      grow_closed n (grown found rest) (others found rest)
        (ground (arith, length-others found rest)))
]

Pairwise-rest :
    (found : List Text) (rest : List Folder)
    → Pairwise Distinct rest
    → Pairwise Distinct (others found rest)
Pairwise-rest found rest d = Pairwise-filter Distinct (λ f. not (is_in found f.parent_id)) rest d

-- What is left carries no id that was found.
others-fresh :
    (found : List Text) (rest : List Folder)
    → Pairwise Distinct rest
    → All (λ f. is_in found f.id ≡ false) rest
    → All (λ f. is_in (grown found rest) f.id ≡ false) (others found rest)
others-fresh found rest d h =
    joined (others found rest) (All-filter _ (λ f. not (is_in found f.parent_id)) rest h)
      (Pairwise-split Distinct (λ f g n e. n (sym e)) (λ f. is_in found f.parent_id) rest d)
  where
    apart : (f : Folder) (gs : List Folder) → All (Distinct f) gs → any (has_id f.id) gs ≡ false
    apart f [] a = refl
    apart f (g ∷ gs) (n, a) = ground (arith, apart f gs a, text_eq_iff g.id f.id)

    joined :
        (fs : List Folder)
        → All (λ f. is_in found f.id ≡ false) fs
        → All (λ f. All (Distinct f) (children found rest)) fs
        → All (λ f. is_in (grown found rest) f.id ≡ false) fs
    joined [] a b = tt
    joined (f ∷ fs) (p, a) (q, b) = (
      ground (
        arith,
        any-append (text_eq f.id) found (map (λ f. f.id) (children found rest)),
        is_in-map (children found rest) f.id,
        apart f (children found rest) q,
        p,
      ),
      joined fs a b,
    )

pub grow_fresh :
    (n : ℕ) (found : List Text) (rest : List Folder)
    → Pairwise Distinct rest
    → All (λ f. is_in found f.id ≡ false) rest
    → All (λ f. is_in (grow n found rest).0 f.id ≡ false) (grow n found rest).1
unfolding grow
grow_fresh zero found rest d h = h
grow_fresh (suc n) found rest d h = elim (Bool-cases (length (children found rest) == 0)) [
  | inl ended ↦ rw ended h
  | inr more ↦ rw more (
      grow_fresh n (grown found rest) (others found rest) (Pairwise-rest found rest d)
        (others-fresh found rest d h))
]

-- What holds of all rows holds of those left.
pub grow-All :
    (P : Folder → Type 0) (n : ℕ) (found : List Text) (rest : List Folder)
    → All P rest
    → All P (grow n found rest).1
unfolding grow
grow-All P zero found rest h = h
grow-All P (suc n) found rest h = elim (Bool-cases (length (children found rest) == 0)) [
  | inl ended ↦ rw ended h
  | inr more ↦ rw more (grow-All P n (grown found rest) (others found rest) (All-filter P _ rest h))
]

pub grow-Pairwise :
    (R : Folder → Folder → Type 0) (n : ℕ) (found : List Text) (rest : List Folder)
    → Pairwise R rest
    → Pairwise R (grow n found rest).1
unfolding grow
grow-Pairwise R zero found rest h = h
grow-Pairwise R (suc n) found rest h = elim (Bool-cases (length (children found rest) == 0)) [
  | inl ended ↦ rw ended h
  | inr more ↦
      rw more
        (grow-Pairwise R n (grown found rest) (others found rest) (Pairwise-filter R _ rest h))
]

find?-others :
    (found : List Text) (j : Text) (all rest : List Folder)
    → is_in (grown found all) j ≡ false
    → (any (has_id j) (children found rest) ≡ true → any (has_id j) (children found all) ≡ true)
    → find? (has_id j) (others found rest) ≡ find? (has_id j) rest
find?-others found j all [] n s = refl
find?-others found j all (f ∷ rest) n s = ground (
  arith,
  find?-others found j all rest n,
  s,
  any-append (text_eq j) found (map (λ f. f.id) (children found all)),
  is_in-map (children found all) j,
)

-- A row whose id was not found is still there.
pub find?-grow :
    (n : ℕ) (found : List Text) (rest : List Folder) (j : Text)
    → is_in (grow n found rest).0 j ≡ false
    → find? (has_id j) (grow n found rest).1 ≡ find? (has_id j) rest
unfolding grow
find?-grow zero found rest j h = refl
find?-grow (suc n) found rest j h = elim (Bool-cases (length (children found rest) == 0)) [
  | inl ended ↦ rw ended refl
  | inr more ↦
      let h' = rw more at h in
      rw more (
        find?-grow n (grown found rest) (others found rest) j h'
        ∙ find?-others found j rest rest
            (ground (arith, h', grow_mono n (grown found rest) (others found rest) j)) (λ e. e))
]
