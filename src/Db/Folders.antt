-- ===== src/Db/Folders.antt =====
-- backend/internal/db/folders.go: the statements on the folder tree.
use smugbox.Db.{
  Folder, Tables, Executed, violates, unique, primary_key, done, foreign_key, create_result,
  one_row, check_affected,
}
use smugbox.Common.{
  Text, if◌then◌else◌, List, ℕ, Bool, any, [], is_empty, map, suc, text_eq, ◌||◌, not, filter,
  length, find?, ◌&&◌, ◌++◌, ◌∷◌, ◌==◌, zero, none, some,
}
use smugbox.Exec.{Result, err, internal}

abbrev pub has_id : Text → Folder → Bool
has_id id f = text_eq f.id id

-- The column `parent_id` or `folder_id` names no folder, or one that exists.
abbrev pub folder_exists : Text → List Folder → Bool
folder_exists id fs = is_empty id || any (has_id id) fs

abbrev pub same_key : Text → Folder → Bool
same_key key f = not (is_empty key) && text_eq f.idempotency_key key

-- INSERT INTO folders, with the unique slug and key, the primary key and the parent's foreign key.
unfoldable pub insert_folder : Folder → Tables → Executed
insert_folder f t =
    if any (λ g. text_eq g.slug f.slug) t.folders || any (same_key f.idempotency_key) t.folders
    then violates unique
    else if any (has_id f.id) t.folders
    then violates primary_key
    else if folder_exists f.parent_id (t.folders ++ f ∷ [])
    then done (record t { folders = t.folders ++ f ∷ [] })
    else violates foreign_key

unfoldable pub create_folder : Folder → Tables → Result Tables
unfolding insert_folder
create_folder f t = create_result (any (same_key f.idempotency_key) t.folders) (insert_folder f t)

unfoldable pub get_folder : Text → Tables → Result Folder
get_folder id t = one_row (find? (has_id id) t.folders)

unfoldable pub get_folder_by_idempotency_key : Text → Tables → Result Folder
get_folder_by_idempotency_key key t = one_row (find? (same_key key) t.folders)

unfoldable pub get_folder_by_slug : Text → Tables → Result Folder
get_folder_by_slug slug t = one_row (find? (λ f. text_eq f.slug slug) t.folders)

abbrev pub write_folder : Folder → Folder → Folder
write_folder f g =
    if has_id f.id g
    then record g { parent_id = f.parent_id; name = f.name; updated_at = f.updated_at }
    else g

-- Name, parent and time of the row; the slug stays. The new parent must exist.
unfoldable pub update_folder : Folder → Tables → Result Tables
update_folder f t =
    if any (has_id f.id) t.folders && not (folder_exists f.parent_id t.folders)
    then err internal
    else check_affected (any (has_id f.id) t.folders)
        (record t { folders = map (write_folder f) t.folders })

abbrev pub is_in : List Text → Text → Bool
is_in ids id = any (text_eq id) ids

-- One round of the recursion WITH RECURSIVE sub: the folders whose parent has been found join the
-- found ones. It ends when a round finds none.
unfoldable pub grow : ℕ → List Text → List Folder → List Text × List Folder
grow zero found rest = (found, rest)
grow (suc n) found rest =
    let children = filter (λ f. is_in found f.parent_id) rest in
    let more =
      grow n (found ++ map (λ f. f.id) children)
        (filter (λ f. not (is_in found f.parent_id)) rest) in
    if length children == 0 then (found, rest) else more

-- The folders in and beneath `id`, and the folders that are not.
unfoldable pub subtree : Text → List Folder → List Text × List Folder
unfolding grow
subtree id fs =
    if any (has_id id) fs
    then grow (length fs) (id ∷ []) (filter (λ f. not (has_id id f)) fs)
    else ([], fs)

-- ON DELETE CASCADE takes the folders beneath, the albums in them, and the albums' photos.
unfoldable pub delete_folder : Text → Tables → Result Tables
unfolding subtree
delete_folder id t =
    let (gone, rest) = subtree id t.folders in
    let dropped = filter (λ a. is_in gone a.folder_id) t.albums in
    check_affected (any (has_id id) t.folders) (record t {
      folders = rest;
      albums = filter (λ a. not (is_in gone a.folder_id)) t.albums;
      photos = filter (λ p. not (is_in (map (λ a. a.id) dropped) p.album_id)) t.photos;
    })

-- WITH RECURSIVE up, by fuel: the folder of this id and its ancestors, the outermost first. A NULL
-- parent joins no row.
unfoldable pub chain_up : ℕ → Text → List Folder → List Folder
chain_up zero id fs = []
chain_up (suc n) id fs = elim (if is_empty id then none else find? (has_id id) fs) [
  | none ↦ []
  | some f ↦ chain_up n f.parent_id fs ++ f ∷ []
]

unfoldable pub folder_chain : Text → Tables → List Folder
unfolding chain_up
folder_chain id t = if is_empty id then [] else chain_up (length t.folders) id t.folders

unfoldable pub subtree_album_ids : Text → Tables → List Text
unfolding subtree
subtree_album_ids id t =
    map (λ a. a.id) (filter (λ a. is_in (subtree id t.folders).0 a.folder_id) t.albums)
