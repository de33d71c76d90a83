-- ===== src/Db/Tree/Own.antt =====
-- FolderChain of a folder's own parent never meets the folder.
use smugbox.Db.Folders.{has_id, chain_up, folder_chain}
use smugbox.Db.Tree.{Rooted, top, under, height, path, shorter, height_unique, IsTree}
use smugbox.Db.{Folder, Tables}
use smugbox.Common.{
  List, find?, Text, ◌≡◌, ℕ, any, some, true, text_eq, false, is_empty, ◌∷◌, Bool-cases, suc, arith,
  inl, inr, ◌++◌, text_eq_iff, length, [], any-append, find?-sound, zero, Bool, refl, none,
}
use smugbox.Db.Tree.Move.{Rooted-of_exists}

module _ (fs : List Folder) (j : Text) where
  chain-path :
      (n : ℕ) {id : Text} (d : Rooted fs id)
      → any (has_id j) (chain_up n id fs) ≡ true
      → any (text_eq j) (path d) ≡ true
  unfolding chain_up path
  chain-path zero d h = absurd (cc)
  chain-path (suc n) (top e) h = absurd (ground (arith, e))
  chain-path (suc n) (under {id} f ne e d) h =
      let up : chain_up (suc n) id fs ≡ chain_up n f.parent_id fs ++ f ∷ [] =
        rw (ne, e, chain_up) refl in
      let split = any-append (has_id j) (chain_up n f.parent_id fs) (f ∷ []) in
      let here = (text_eq_iff f.id id).0 (find?-sound (has_id id) fs f e) in
      ground (arith, up, split, here, chain-path n d, text_eq_iff j id, text_eq_iff f.id j)

  path-nonempty :
      {id : Text} (d : Rooted fs id) → any (text_eq j) (path d) ≡ true → is_empty j ≡ false
  unfolding path
  path-nonempty (top e) h = absurd (cc)
  path-nonempty (under {id} f ne e d) h = ground (arith, path-nonempty d, text_eq_iff j id)

find?-none : (p : Folder → Bool) (fs : List Folder) → any p fs ≡ false → find? p fs ≡ none
find?-none p [] h = refl
find?-none p (f ∷ fs) h = ground (arith, find?-none p fs)

-- A chain that is not empty starts at a folder that hangs in the tree.
Rooted-chain :
    (fs : List Folder) (j : Text) (n : ℕ) (id : Text)
    → IsTree fs
    → any (has_id j) (chain_up n id fs) ≡ true
    → Rooted fs id
unfolding chain_up
Rooted-chain fs j n [] h k = top refl
Rooted-chain fs j zero (c ∷ id) h k = absurd (cc)
Rooted-chain fs j (suc n) (c ∷ id) h k = elim (Bool-cases (any (has_id (c ∷ id)) fs)) [
  | inl known ↦ Rooted-of_exists fs (c ∷ id) h known
  | inr unknown ↦ absurd (ground (arith, find?-none (has_id (c ∷ id)) fs unknown))
]

-- In a tree, a folder that is the row of its id does not stand in the chain of its own parent.
pub folder_chain-own :
    (f : Folder) (t : Tables)
    → IsTree t.folders
    → find? (has_id f.id) t.folders ≡ some f
    → any (has_id f.id) (folder_chain f.parent_id t) ≡ false
unfolding folder_chain height
folder_chain-own f t h e = elim (Bool-cases (any (has_id f.id) (folder_chain f.parent_id t))) [
  | inr apart ↦ apart
  | inl met ↦
      let inside : any (has_id f.id) (chain_up (length t.folders) f.parent_id t.folders) ≡ true =
        ground arith in
      let d = Rooted-chain t.folders f.id (length t.folders) f.parent_id h inside in
      let on_path = chain-path t.folders f.id (length t.folders) d inside in
      let (c, k) = shorter d f.id on_path in
      absurd
        (omega (arith, height_unique (under f (path-nonempty t.folders f.id d on_path) e d) c refl))
]
