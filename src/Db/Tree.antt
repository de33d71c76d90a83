-- ===== src/Db/Tree.antt =====
-- The folders as a tree: following the parents of a folder ends at the root. SQLite does not check
-- this; it is what makes the recursive queries of backend/internal/db/folders.go end.
pub mod Move
pub mod Grow
pub mod Drop
pub mod Own
use smugbox.Db.Folders.{has_id}
use smugbox.Db.{Folder}
use smugbox.Common.{
  List, Text, All, ◌≡◌, ℕ, [], length, is_empty, suc, ◌∷◌, ap, arith, false, find?, some, refl, any,
  Pairwise, ◌≢◌, ◌≤◌, text_eq, true, Bool-cases, text_eq_refl, any_of_find?, filter, not, inl,
  text_eq_iff, ◌<◌, subst, length-filter, inr,
}

-- The chain of parents from this folder id ends at the root, which has the empty id.
pub data Rooted (fs : List Folder) : Text → Type 0 where
  top : {id : Text} → id ≡ [] → Rooted fs id
  under :
      {id : Text} (f : Folder)
      → is_empty id ≡ false
      → find? (has_id id) fs ≡ some f
      → Rooted fs f.parent_id
      → Rooted fs id

-- Every folder hangs under the root.
abbrev pub IsTree : List Folder → Type 0
IsTree fs = All (λ f. Rooted fs f.id) fs

module _ {fs : List Folder} where
  pub height : {id : Text} → Rooted fs id → ℕ
  height (top e) = 0
  height (under f n e d) = suc (height d)

  pub path : {id : Text} → Rooted fs id → List Text
  path (top e) = []
  path (under {id} f n e d) = id ∷ path d

  length-path : {id : Text} (d : Rooted fs id) → length (path d) ≡ height d
  unfolding height path
  length-path (top e) = refl
  length-path (under f n e d) = ap suc (length-path d)

  -- There is one chain of parents.
  pub height_unique : {i j : Text} (d : Rooted fs i) (e : Rooted fs j) → i ≡ j → height d ≡ height e
  unfolding height
  height_unique (top p) (top q) s = refl
  height_unique (top p) (under f n e d) s = absurd (ground arith)
  height_unique (under f n e d) (top q) s = absurd (ground arith)
  height_unique (under f n e d) (under g m h c) s =
      let same : f ≡ g = ground arith in
      ap suc (height_unique d c (ap (λ (x : Folder). x.parent_id) same))

  -- Whoever stands in the path has a chain that is no longer.
  pub shorter :
      {id : Text} (d : Rooted fs id) (j : Text)
      → any (text_eq j) (path d) ≡ true
      → (e : Rooted fs j) × (height e ≤ height d)
  unfolding path height
  shorter (top e) j h = absurd (cc)
  shorter (under {id} f n e d) j h = elim (Bool-cases (text_eq j id)) [
    | inl same ↦
        let here : id ≡ j = ground (arith, text_eq_iff j id) in
        (
          subst (Rooted fs) here (under f n e d),
          ground
              (arith, height_unique (under f n e d) (subst (Rooted fs) here (under f n e d)) here),
        )
    | inr other ↦ let (c, k) = shorter d j (ground arith) in (c, omega arith)
  ]

  -- No folder is its own ancestor.
  path-distinct : {id : Text} (d : Rooted fs id) → Pairwise (λ i j. i ≢ j) (path d)
  unfolding path height
  path-distinct (top e) = tt
  path-distinct (under {id} f n e d) = (absent (path d) (λ j h. h), path-distinct d)
    where
      fresh : (j : Text) → any (text_eq j) (path d) ≡ true → id ≢ j
      fresh j h s =
          let (c, k) = shorter d j h in absurd (omega (arith, height_unique (under f n e d) c s))

      absent :
          (js : List Text)
          → ((j : Text) → any (text_eq j) js ≡ true → any (text_eq j) (path d) ≡ true)
          → All (λ j. id ≢ j) js
      absent [] inside = tt
      absent (j ∷ js) inside = (
        fresh j (inside j (rw (text_eq_refl j))),
        absent js (λ i h. inside i (ground (arith, h))),
      )

  path-known : {id : Text} (d : Rooted fs id) → All (λ j. any (has_id j) fs ≡ true) (path d)
  unfolding path
  path-known (top e) = tt
  path-known (under {id} f n e d) = (any_of_find? (has_id id) fs f e, path-known d)

length-without :
    (id : Text) (fs : List Folder)
    → any (has_id id) fs ≡ true
    → length (filter (λ f. not (has_id id f)) fs) < length fs
length-without id [] h = absurd (cc)
length-without id (f ∷ fs) h =
    ground (arith, length-without id fs, length-filter (λ f. not (has_id id f)) fs)

any-without :
    (i j : Text) (fs : List Folder)
    → i ≢ j
    → any (has_id j) fs ≡ true
    → any (has_id j) (filter (λ f. not (has_id i f)) fs) ≡ true
any-without i j [] n h = h
any-without i j (f ∷ fs) n h =
    ground (arith, any-without i j fs n, text_eq_iff f.id i, text_eq_iff f.id j)

-- Distinct ids that all occur are no more than there are rows.
length-distinct :
    (ids : List Text) (fs : List Folder)
    → Pairwise (λ i j. i ≢ j) ids
    → All (λ j. any (has_id j) fs ≡ true) ids
    → length ids ≤ length fs
length-distinct [] fs d k = omega arith
length-distinct (i ∷ ids) fs (n, d) (h, k) = omega (
  arith,
  length-without i fs h,
  length-distinct ids (filter (λ f. not (has_id i f)) fs) d (known ids n k),
)
  where
    known :
        (js : List Text)
        → All (λ j. i ≢ j) js
        → All (λ j. any (has_id j) fs ≡ true) js
        → All (λ j. any (has_id j) (filter (λ f. not (has_id i f)) fs) ≡ true) js
    known [] n k = tt
    known (j ∷ js) (m, n) (h, k) = (any-without i j fs m h, known js n k)

-- So the fuel of the upward recursion is enough.
pub height-le : (fs : List Folder) {id : Text} (d : Rooted fs id) → height d ≤ length fs
height-le fs d =
    omega (arith, length-path d, length-distinct (path d) fs (path-distinct d) (path-known d))
