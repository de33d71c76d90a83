-- ===== src/Db/Tree/Move.antt =====
-- FolderChain finds every ancestor, and a move to a parent that has the folder in no chain keeps the
-- tree.
use smugbox.Db.Folders.{has_id, chain_up, folder_chain, write_folder, update_folder, folder_exists}
use smugbox.Db.Tree.{Rooted, height, top, under, height-le, IsTree}
use smugbox.Common.{
  List, Text, ℕ, ◌≡◌, ◌≤◌, [], find?, false, some, ◌++◌, arith, ◌∷◌, suc, map, any, zero, refl,
  length, Bool-cases, inl, text_eq_iff, inr, any-append, ◌∙◌, ap, subst, true, find?_of_any,
  All-map, find?-sound, All-mapped, All-find?, sym,
}
use smugbox.Db.{Folder, Tables}
use smugbox.Exec.{ok}

-- The folders of a chain, the outermost first, up to the folder `id`: each hangs under the one in
-- front of it, and the first under the root.
pub data Leads (fs : List Folder) : List Folder → Text → Type 0 where
  root : {id : Text} → id ≡ [] → Leads fs [] id
  step :
      {id : Text} (f : Folder) (cs : List Folder) {out : List Folder}
      → find? (has_id id) fs ≡ some f
      → Leads fs cs f.parent_id
      → out ≡ cs ++ f ∷ []
      → Leads fs out id

chain_up-Leads :
    (fs : List Folder) (n : ℕ) {id : Text} (d : Rooted fs id)
    → height d ≤ n
    → Leads fs (chain_up n id fs) id
unfolding chain_up height
chain_up-Leads fs zero (top e) h = root e
chain_up-Leads fs (suc n) (top e) h = rw e (root refl)
chain_up-Leads fs zero (under f ne e d) h = absurd (omega arith)
chain_up-Leads fs (suc n) (under f ne e d) h =
    rw (ne, e, chain_up)
      (step f (chain_up n f.parent_id fs) e (chain_up-Leads fs n d (omega arith)) refl)

-- The chain of a folder that hangs in the tree is complete: its first folder has no parent, each
-- hangs under the one in front of it, and the last is the folder.
pub folder_chain-Leads :
    (t : Tables) (id : Text) → Rooted t.folders id → Leads t.folders (folder_chain id t) id
unfolding folder_chain
folder_chain-Leads t [] d = root refl
folder_chain-Leads t (c ∷ id) d =
    chain_up-Leads t.folders (length t.folders) d (height-le t.folders d)

module _ (f : Folder) (fs : List Folder) where
  find?-write :
      (id : Text) (gs : List Folder) (g : Folder)
      → find? (has_id id) gs ≡ some g
      → find? (has_id id) (map (write_folder f) gs) ≡ some (write_folder f g)
  find?-write id [] g e = absurd (cc)
  find?-write id (x ∷ gs) g e = elim (Bool-cases (has_id id x)) [
    | inl here ↦
        let same : x ≡ g = ground arith in rw (← same) (ground (arith, text_eq_iff x.id id))
    | inr there ↦ ground (arith, find?-write id gs g, text_eq_iff x.id id)
  ]

  -- The chain of a parent that avoids `f` is the same after the move.
  Rooted-write :
      {id : Text} {cs : List Folder}
      → Rooted fs id
      → Leads fs cs id
      → any (has_id f.id) cs ≡ false
      → Rooted (map (write_folder f) fs) id
  Rooted-write (top s) l h = top s
  Rooted-write (under g ne e d) (root s) h = top s
  Rooted-write (under {id} g ne e d) (step g' cs e' l o) h =
      let same : g' ≡ g = ground arith in
      let apart : any (has_id f.id) (cs ++ g' ∷ []) ≡ false = rw (← o) h in
      let split = any-append (has_id f.id) cs (g' ∷ []) in
      let other : has_id f.id g ≡ false = ground (arith, apart, split, same) in
      let kept : write_folder f g ≡ g = rw other refl in
      let found : find? (has_id id) (map (write_folder f) fs) ≡ some g =
        find?-write id fs g e ∙ ap some kept in
      under g ne found (
        Rooted-write d (subst (λ (x : Folder). Leads fs cs x.parent_id) same l)
          (ground (arith, apart, split)))

  -- Every other folder follows: it is `f`, or hangs under one that does.
  Rooted-moved :
      (old : Folder)
      → find? (has_id f.id) fs ≡ some old
      → Rooted (map (write_folder f) fs) f.parent_id
      → {id : Text} → Rooted fs id
      → Rooted (map (write_folder f) fs) id
  Rooted-moved old known new (top e) = top e
  Rooted-moved old known new (under {id} g ne e d) = elim (Bool-cases (has_id f.id g)) [
    | inl same ↦
        let written : write_folder f g
            ≡ record g { parent_id = f.parent_id; name = f.name; updated_at = f.updated_at } =
          rw same refl in
        under (record g { parent_id = f.parent_id; name = f.name; updated_at = f.updated_at }) ne
          (find?-write id fs g e ∙ ap some written) new
    | inr other ↦
        let kept : write_folder f g ≡ g = rw other refl in
        under g ne (find?-write id fs g e ∙ ap some kept) (Rooted-moved old known new d)
  ]

id-write : (f g : Folder) → (write_folder f g).id ≡ g.id
id-write f g = ground arith

pub Rooted-of_exists :
    (fs : List Folder) (id : Text) → IsTree fs → folder_exists id fs ≡ true → Rooted fs id
Rooted-of_exists fs [] h k = top refl
Rooted-of_exists fs (c ∷ id) h k =
    let (g, e) = find?_of_any (has_id (c ∷ id)) fs k in
    let here = (text_eq_iff g.id (c ∷ id)).0 (find?-sound (has_id (c ∷ id)) fs g e) in
    subst (Rooted fs) here (All-find? (λ x. Rooted fs x.id) (has_id (c ∷ id)) fs g e h)

-- A move to a folder whose chain does not contain the moved one keeps the tree.
pub update_folder-IsTree :
    (f : Folder) (t t' : Tables)
    → IsTree t.folders
    → any (has_id f.id) (folder_chain f.parent_id t) ≡ false
    → update_folder f t ≡ ok t'
    → IsTree t'.folders
unfolding update_folder
update_folder-IsTree f t t' h avoid e =
    let known : any (has_id f.id) t.folders ≡ true = ground arith in
    let parent : folder_exists f.parent_id t.folders ≡ true = ground arith in
    let after : t' ≡ record t { folders = map (write_folder f) t.folders } = ground arith in
    let old = find?_of_any (has_id f.id) t.folders known in
    let under_root = Rooted-of_exists t.folders f.parent_id h parent in
    let new =
      Rooted-write f t.folders under_root (folder_chain-Leads t f.parent_id under_root) avoid in
    rw after (
      All-mapped (λ g. Rooted (map (write_folder f) t.folders) g.id) (write_folder f) t.folders
        (λ g d. subst (Rooted (map (write_folder f) t.folders)) (sym (id-write f g)) d)
        (All-map (λ g d. Rooted-moved f t.folders old.0 old.1 new d) t.folders h))
