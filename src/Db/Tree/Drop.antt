-- ===== src/Db/Tree/Drop.antt =====
-- Deleting a folder with all that hangs under it leaves a tree, and no row that points to a folder
-- that is gone.
use smugbox.Db.Folders.{has_id, subtree, is_in, folder_exists}
use smugbox.Db.{Folder}
use smugbox.Common.{
  Text, List, text_eq, All, any, Pairwise, ◌≡◌, ◌∷◌, Bool-cases, false, [], true, inl, find?,
  filter, find?_of_any, not, length, any_of_find?, arith, All-of_filter, ◌∙◌, length-filter,
  Pairwise-filter, All-filter, text_eq_iff, some, inr, refl, All-find?,
}
use smugbox.Db.Tree.Grow.{
  Distinct, grow_closed, grow_fresh, grow-All, grow-Pairwise, find?-grow, grow_mono,
}
use smugbox.Db.Tree.{Rooted, IsTree, top, under}

find?-without :
    (id j : Text) (fs : List Folder)
    → text_eq id j ≡ false
    → find? (has_id j) (filter (λ f. not (has_id id f)) fs) ≡ find? (has_id j) fs
find?-without id j [] n = refl
find?-without id j (f ∷ fs) n =
    ground
      (arith, find?-without id j fs n, text_eq_iff f.id id, text_eq_iff f.id j, text_eq_iff id j)

without-fresh :
    (id : Text) (fs : List Folder)
    → All (λ f. is_in (id ∷ []) f.id ≡ false) (filter (λ f. not (has_id id f)) fs)
without-fresh id fs =
    All-of_filter (λ f. is_in (id ∷ []) f.id ≡ false) (λ f. not (has_id id f)) fs
      (λ f h. ground arith)

module _ (id : Text) (fs : List Folder) where
  -- The row that a lookup finds after the deletion, for an id that is not deleted.
  pub find?-subtree :
      (j : Text)
      → is_in (subtree id fs).0 j ≡ false
      → find? (has_id j) (subtree id fs).1 ≡ find? (has_id j) fs
  unfolding subtree
  find?-subtree j h = elim (Bool-cases (any (has_id id) fs)) [
    | inl here ↦
        let h' = rw here at h in
        rw here (
          find?-grow (length fs) (id ∷ []) (filter (λ f. not (has_id id f)) fs) j h'
          ∙ find?-without id j fs (
              ground (
                arith,
                h',
                text_eq_iff j id,
                text_eq_iff id j,
                grow_mono (length fs) (id ∷ []) (filter (λ f. not (has_id id f)) fs) j,
              )))
    | inr absent ↦ rw absent refl
  ]

  pub subtree_closed :
      any (has_id id) fs ≡ true
      → All (λ f. is_in (subtree id fs).0 f.parent_id ≡ false) (subtree id fs).1
  unfolding subtree
  subtree_closed here = rw here (
      grow_closed (length fs) (id ∷ []) (filter (λ f. not (has_id id f)) fs)
        (length-filter (λ f. not (has_id id f)) fs))

  pub subtree_fresh :
      Pairwise Distinct fs
      → any (has_id id) fs ≡ true
      → All (λ f. is_in (subtree id fs).0 f.id ≡ false) (subtree id fs).1
  unfolding subtree
  subtree_fresh d here = rw here (
      grow_fresh (length fs) (id ∷ []) (filter (λ f. not (has_id id f)) fs)
        (Pairwise-filter Distinct (λ f. not (has_id id f)) fs d) (without-fresh id fs))

  pub subtree-All : (P : Folder → Type 0) → All P fs → All P (subtree id fs).1
  unfolding subtree
  subtree-All P h = elim (Bool-cases (any (has_id id) fs)) [
    | inl here ↦
        rw here (grow-All P (length fs) (id ∷ []) _ (All-filter P (λ f. not (has_id id f)) fs h))
    | inr absent ↦ rw absent h
  ]

  pub subtree-Pairwise :
      (R : Folder → Folder → Type 0) → Pairwise R fs → Pairwise R (subtree id fs).1
  unfolding subtree
  subtree-Pairwise R h = elim (Bool-cases (any (has_id id) fs)) [
    | inl here ↦
        rw here (
          grow-Pairwise R (length fs) (id ∷ []) _ (Pairwise-filter R (λ f. not (has_id id f)) fs h))
    | inr absent ↦ rw absent h
  ]

  Rooted-rest :
      any (has_id id) fs ≡ true
      → {j : Text} → Rooted fs j
      → is_in (subtree id fs).0 j ≡ false
      → Rooted (subtree id fs).1 j
  Rooted-rest here (top e) h = top e
  Rooted-rest here (under {id = j} g ne e d) h =
      let there : find? (has_id j) (subtree id fs).1 ≡ some g = find?-subtree j h ∙ e in
      let outside =
        All-find? (λ f. is_in (subtree id fs).0 f.parent_id ≡ false) (has_id j) (subtree id fs).1 g
          there (subtree_closed here) in
      under g ne there (Rooted-rest here d outside)

  both :
      any (has_id id) fs ≡ true
      → (gs : List Folder) → All (λ f. Rooted fs f.id) gs
      → All (λ f. is_in (subtree id fs).0 f.id ≡ false) gs
      → All (λ f. Rooted (subtree id fs).1 f.id) gs
  both here [] h k = tt
  both here (g ∷ gs) (d, h) (n, k) = (Rooted-rest here d n, both here gs h k)

  pub subtree-IsTree :
      Pairwise Distinct fs → any (has_id id) fs ≡ true → IsTree fs → IsTree (subtree id fs).1
  subtree-IsTree u here h =
      both here (subtree id fs).1 (subtree-All (λ f. Rooted fs f.id) h) (subtree_fresh u here)

  -- A reference to a folder that is not deleted still finds it.
  pub subtree_exists :
      (j : Text)
      → folder_exists j fs ≡ true
      → is_in (subtree id fs).0 j ≡ false
      → folder_exists j (subtree id fs).1 ≡ true
  subtree_exists [] h n = refl
  subtree_exists (c ∷ j) h n =
      let (g, e) = find?_of_any (has_id (c ∷ j)) fs h in
      any_of_find? (has_id (c ∷ j)) (subtree id fs).1 g (find?-subtree (c ∷ j) n ∙ e)
