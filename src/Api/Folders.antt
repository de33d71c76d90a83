-- ===== src/Api/Folders.antt =====
-- The folder handlers (backend/internal/api/publish_folders.go). The answer is the row, from which the
-- source writes the JSON.
pub mod Kept
use smugbox.Api.{
  internal_error, valid_name, valid_idempotency_key, required_name, new_name, or_internal, found_or,
  prior, gone_or_internal, resolve_parent_folder, parent_or,
}
use smugbox.Api.UniqueSlug.{with_unique_slug}
use smugbox.World.{World, query, execute, remove_album_dir}
use smugbox.Media.{Tools}
use smugbox.Db.{Folder}
use smugbox.Db.Folders.{
  has_id, create_folder, get_folder, get_folder_by_idempotency_key, update_folder, delete_folder,
  folder_chain, subtree_album_ids,
}
use smugbox.Exec.{
  Exec, Result, ok, err, fail, return, lift, attempt, key_taken, answered, ◌>>=◌, ◌>>◌,
}
use smugbox.Common.{
  Option, ℕ, Text, List, if◌then◌else◌, ◌∷◌, some, not, is_empty, [], any, text_eq, is_some, none,
}

pub record FolderInput : Type 0 where
  pub name : Option Text
  pub parent_id : Option Text
  pub idempotency_key : Option Text

abbrev pub new_folder : ℕ → Text → Text → Text → Text → Text → Folder
new_folder now fresh name key parent slug = record {
  id = fresh;
  parent_id = parent;
  slug = slug;
  name = name;
  idempotency_key = key;
  created_at = now;
  updated_at = now;
}

module _ (tools : Tools) where
  unfoldable pub folder_from_path : Text → Exec World Folder
  unfolding found_or
  folder_from_path id =
      if not (is_some (tools.parse_uuid id))
      then fail (answered 404 "folder_not_found")
      else do r ← attempt (query (get_folder id)); found_or 404 "folder_not_found" r

  unfoldable pub prior_folder : Text → Exec World (Option Folder)
  unfolding prior
  prior_folder key =
      if is_empty key
      then return none
      else do r ← attempt (query (get_folder_by_idempotency_key key)); prior r

  -- A key that was taken in the meantime answers with the folder that took it.
  unfoldable pub created_folder : Text → (Text → Folder) → Result Text → Exec World Folder
  unfolding or_internal
  created_folder key f (ok slug) = return (f slug)
  created_folder key f (err key_taken) = do
    r ← attempt (query (get_folder_by_idempotency_key key))
    or_internal r
  created_folder key f (err e) = fail internal_error

  abbrev pub create_unless :
      ℕ
      → Text
      → List ℕ
      → (Text → Text)
      → Text
      → Text
      → Option Text
      → Option Folder
      → Exec World Folder
  create_unless now fresh random slugify name key parent_id (some f) = return f
  create_unless now fresh random slugify name key parent_id none = do
    parent ← parent_or tools [] parent_id
    let f = new_folder now fresh name key parent
    r ← attempt (with_unique_slug (slugify name) (λ slug. execute (create_folder (f slug))) random)
    created_folder key f r

  -- `createFolder`
  unfoldable pub post_folder :
      ℕ → Text → List ℕ → (Text → Text) → Result FolderInput → Exec World Folder
  unfolding required_name valid_idempotency_key prior_folder parent_or with_unique_slug
      created_folder
  post_folder now fresh random slugify body = do
    input ← lift body
    name ← lift (required_name input.name)
    key ← lift (valid_idempotency_key input.idempotency_key)
    found ← prior_folder key
    create_unless now fresh random slugify name key input.parent_id found

  abbrev pub refuse_cycle : Folder → Text → List Folder → Exec World Text
  refuse_cycle f parent chain =
      if any (has_id f.id) chain then fail (answered 400 "invalid_parent") else return parent

  abbrev pub check_chain : Folder → Text → Exec World Text
  check_chain f parent = if is_empty parent then return parent else do
    r ← attempt (query (λ t. ok (folder_chain parent t)))
    chain ← or_internal r
    refuse_cycle f parent chain

  -- The parent after a move; the folder itself and what is beneath it are refused.
  unfoldable pub new_parent : Folder → Option Text → Exec World Text
  unfolding or_internal resolve_parent_folder
  new_parent f none = return f.parent_id
  new_parent f (some id) =
      if text_eq id f.id
      then fail (answered 400 "invalid_parent")
      else do parent ← resolve_parent_folder tools id; check_chain f parent

  -- `updateFolder`
  unfoldable pub put_folder : ℕ → Text → Result FolderInput → Exec World Folder
  unfolding folder_from_path new_name new_parent or_internal
  put_folder now id body = do
    f ← folder_from_path id
    input ← lift body
    name ← lift (new_name f.name input.name)
    parent ← new_parent f input.parent_id
    let g = record f { name = name; parent_id = parent; updated_at = now }
    r ← attempt (execute (update_folder g))
    or_internal r
    return g

  -- Directories that cannot be removed are left to gc.
  unfoldable pub remove_albums : List Text → Exec World (Unit {0})
  remove_albums [] = return tt
  remove_albums (id ∷ ids) = do attempt (remove_album_dir tools id); remove_albums ids

  -- `deleteFolder`
  unfoldable pub drop_folder : Text → Exec World (Unit {0})
  unfolding folder_from_path or_internal gone_or_internal remove_albums
  drop_folder id = do
    f ← folder_from_path id
    r ← attempt (query (λ t. ok (subtree_album_ids f.id t)))
    ids ← or_internal r
    r ← attempt (execute (delete_folder f.id))
    gone_or_internal r
    remove_albums ids
