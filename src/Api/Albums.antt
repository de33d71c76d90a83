-- ===== src/Api/Albums.antt =====
-- The album handlers (backend/internal/api/publish_albums.go). bcrypt enters through `Passwords`.
pub mod Kept
pub mod Versions
use smugbox.Api.{
  internal_error, valid_idempotency_key, required_name, new_name, or_internal, found_or, prior,
  gone_or_internal, parent_or,
}
use smugbox.Api.UniqueSlug.{with_unique_slug}
use smugbox.World.{World, query, execute, remove_album_dir}
use smugbox.Media.{Tools}
use smugbox.Db.{Album, Photo, protected}
use smugbox.Db.Albums.{
  create_album, get_album, get_album_by_idempotency_key, update_album, delete_album,
}
use smugbox.Db.Photos.{get_photo, set_photo_order}
use smugbox.Library.Render.{remove}
use smugbox.Exec.{
  Exec, Result, Failure, ok, err, fail, return, lift, attempt, key_taken, answered, client, ◌>>=◌,
  ◌>>◌,
}
use smugbox.Common.{
  trim_space, ℕ, Text, Option, List, String, none, Bool, ◌∷◌, [], if◌then◌else◌, some, text_eq,
  is_empty, true, not, all, is_some, codes, ltb, ◌&&◌, length, ◌+◌,
}

abbrev pub max_description_len : ℕ
max_description_len = 5000

abbrev pub max_password_len : ℕ
max_password_len = 72

-- auth.HashPassword and auth.CheckPassword.
pub record Passwords : Type 0 where
  pub hash_password : Text → Option Text
  pub check_password : Text → Text → Bool

pub record AlbumInput : Type 0 where
  pub name : Option Text
  pub description : Option Text
  pub password : Option Text
  pub is_listed : Option Bool
  pub cover_photo_id : Option Text
  pub parent_id : Option Text
  pub idempotency_key : Option Text

-- `libraryStatus`
abbrev pub library_status : List (String × ℕ)
library_status =
    ("missing_lr_photo_uuid", 400)
    ∷ ("missing_file", 400)
    ∷ ("invalid_taken_at", 400)
    ∷ ("invalid_keywords", 400)
    ∷ ("invalid_exif", 400)
    ∷ ("photo_not_found", 404)
    ∷ ("unsupported_media_type", 415)
    ∷ ("invalid_image", 422)
    ∷ ("invalid_video", 422)
    ∷ []

unfoldable pub status_of : String → List (String × ℕ) → Option ℕ
status_of code [] = none
status_of code ((c, st) ∷ rest) =
    if text_eq (codes c) (codes code) then some st else status_of code rest

unfoldable pub set_description : Option Text → Album → Result Album
unfolding trim_space
set_description none a = ok a
set_description (some d) a =
    if ltb max_description_len (length d)
    then err (answered 400 "invalid_description")
    else ok (record a { description = trim_space d })

unfoldable pub set_listed : Option Bool → Album → Album
set_listed none a = a
set_listed (some l) a = record a { is_listed = l }

abbrev hashed : ℕ → Option Text → Album → Result Album
hashed version none a = err internal_error
hashed version (some h) a = ok (record a { password_hash = h; password_version = version })

module _ (passwords : Passwords) where
  open passwords use {hash_password, check_password}

  -- The password of a new album.
  unfoldable pub first_password : Option Text → Album → Result Album
  first_password none a = ok a
  first_password (some pw) a =
      if is_empty pw
      then ok a
      else if ltb max_password_len (length pw)
      then err (answered 400 "invalid_password")
      else hashed 1 (hash_password pw) a

  -- The switch of `updateAlbum`: a change counts the version up, which ends the visitors' sessions.
  unfoldable pub change_password : Option Text → Album → Result Album
  change_password none a = ok a
  change_password (some pw) a =
      if is_empty pw && protected a
      then ok (record a { password_hash = []; password_version = a.password_version + 1 })
      else if is_empty pw
      then ok a
      else if ltb max_password_len (length pw)
      then err (answered 400 "invalid_password")
      else if protected a && check_password a.password_hash pw
      then ok a
      else hashed (a.password_version + 1) (hash_password pw) a

  abbrev pub new_album : ℕ → Text → Text → Text → Album
  new_album now fresh name key = record {
    id = fresh;
    folder_id = [];
    slug = [];
    name = name;
    description = [];
    password_hash = [];
    password_version = 0;
    is_listed = true;
    cover_photo_id = [];
    idempotency_key = key;
    created_at = now;
    updated_at = now;
  }

  module _ (tools : Tools) where
    unfoldable pub album_from_path : Text → Exec World Album
    unfolding found_or
    album_from_path id =
        if not (is_some (tools.parse_uuid id))
        then fail (answered 404 "album_not_found")
        else do r ← attempt (query (get_album id)); found_or 404 "album_not_found" r

    unfoldable pub prior_album : Text → Exec World (Option Album)
    unfolding prior
    prior_album key =
        if is_empty key
        then return none
        else do r ← attempt (query (get_album_by_idempotency_key key)); prior r

    unfoldable pub created_album : Text → (Text → Album) → Result Text → Exec World Album
    unfolding or_internal
    created_album key a (ok slug) = return (a slug)
    created_album key a (err key_taken) = do
      r ← attempt (query (get_album_by_idempotency_key key))
      or_internal r
    created_album key a (err e) = fail internal_error

    abbrev pub create_unless :
        List ℕ → (Text → Text) → AlbumInput → Album → Option Album → Exec World Album
    create_unless random slugify input a (some found) = return found
    create_unless random slugify input a none = do
      b ← lift (set_description input.description a)
      let c = set_listed input.is_listed b
      d ← lift (first_password input.password c)
      parent ← parent_or tools [] input.parent_id
      let e : Text → Album = λ slug. record d { folder_id = parent; slug = slug }
      r ←
          attempt
            (with_unique_slug (slugify d.name) (λ slug. execute (create_album (e slug))) random)
      created_album d.idempotency_key e r

    -- `createAlbum`
    unfoldable pub post_album :
        ℕ → Text → List ℕ → (Text → Text) → Result AlbumInput → Exec World Album
    unfolding required_name valid_idempotency_key prior_album parent_or with_unique_slug
        created_album first_password set_description set_listed
    post_album now fresh random slugify body = do
      input ← lift body
      name ← lift (required_name input.name)
      key ← lift (valid_idempotency_key input.idempotency_key)
      found ← prior_album key
      create_unless random slugify input (new_album now fresh name key) found

    -- A cover must be a photo of the album.
    unfoldable pub set_cover : Option Text → Album → Exec World Album
    unfolding found_or
    set_cover none a = return a
    set_cover (some id) a = if is_empty id then return (record a { cover_photo_id = [] }) else do
      r ← attempt (query (get_photo a.id id))
      p ← found_or 422 "cover_photo_not_found" r
      return (record a { cover_photo_id = id })

    -- `updateAlbum`
    unfoldable pub put_album : ℕ → Text → Result AlbumInput → Exec World Album
    unfolding album_from_path new_name parent_or set_cover or_internal change_password
        set_description set_listed
    put_album now id body = do
      a ← album_from_path id
      input ← lift body
      name ← lift (new_name a.name input.name)
      b ← lift (set_description input.description (record a { name = name }))
      parent ← parent_or tools b.folder_id input.parent_id
      c ←
          set_cover input.cover_photo_id
            (record (set_listed input.is_listed b) { folder_id = parent })
      d ← lift (change_password input.password c)
      let e = record d { updated_at = now }
      r ← attempt (execute (update_album e))
      or_internal r
      return e

    -- `deleteAlbum`
    unfoldable pub drop_album : Text → Exec World (Unit {0})
    unfolding album_from_path gone_or_internal
    drop_album id = do
      a ← album_from_path id
      r ← attempt (execute (delete_album a.id))
      gone_or_internal r
      attempt (remove_album_dir tools a.id)
      return tt

    -- `setPhotoOrder`, a transaction
    unfoldable pub put_photo_order : Text → Result (List Text) → Exec World (Unit {0})
    unfolding album_from_path or_internal
    put_photo_order id body = do
      a ← album_from_path id
      ids ← lift body
      if all (λ i. is_some (tools.parse_uuid i)) ids
          then (do r ← attempt (execute (λ t. ok (set_photo_order a.id ids t))); or_internal r)
          else fail (answered 400 "invalid_photo_id")

    abbrev pub with_status : String → Option ℕ → Exec World (Unit {0})
    with_status code none = fail internal_error
    with_status code (some st) = fail (answered st code)

    -- `libraryError`
    unfoldable pub library_error : Failure → Exec World (Unit {0})
    unfolding status_of
    library_error (client code) = with_status code (status_of code library_status)
    library_error e = fail internal_error

    abbrev pub removed : Result (Unit {0}) → Exec World (Unit {0})
    removed (ok u) = return tt
    removed (err e) = library_error e

    -- `deletePhoto`
    unfoldable pub drop_photo : Text → Text → Exec World (Unit {0})
    unfolding album_from_path remove library_error
    drop_photo id photo_id = do
      a ← album_from_path id
      if is_some (tools.parse_uuid photo_id)
          then (do r ← attempt (remove tools a.id photo_id); removed r)
          else fail (answered 404 "photo_not_found")
