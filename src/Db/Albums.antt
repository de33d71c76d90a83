-- ===== src/Db/Albums.antt =====
-- backend/internal/db/albums.go: the statements on albums.
use smugbox.Db.Folders.{folder_exists}
use smugbox.Db.{
  Album, Tables, Executed, violates, unique, primary_key, done, foreign_key, create_result, one_row,
  check_affected,
}
use smugbox.Common.{
  Text, if◌then◌else◌, Bool, text_eq, not, any, is_empty, ◌||◌, ◌&&◌, ◌++◌, ◌∷◌, [], find?, filter,
  map,
}
use smugbox.Exec.{Result, err, internal}

abbrev pub has_id : Text → Album → Bool
has_id id a = text_eq a.id id

abbrev pub same_key : Text → Album → Bool
same_key key a = not (is_empty key) && text_eq a.idempotency_key key

unfoldable pub insert_album : Album → Tables → Executed
insert_album a t =
    if any (λ b. text_eq b.slug a.slug) t.albums || any (same_key a.idempotency_key) t.albums
    then violates unique
    else if any (has_id a.id) t.albums
    then violates primary_key
    else if folder_exists a.folder_id t.folders
    then done (record t { albums = t.albums ++ a ∷ [] })
    else violates foreign_key

unfoldable pub create_album : Album → Tables → Result Tables
unfolding insert_album
create_album a t = create_result (any (same_key a.idempotency_key) t.albums) (insert_album a t)

unfoldable pub get_album : Text → Tables → Result Album
get_album id t = one_row (find? (has_id id) t.albums)

unfoldable pub get_album_by_idempotency_key : Text → Tables → Result Album
get_album_by_idempotency_key key t = one_row (find? (same_key key) t.albums)

unfoldable pub get_album_by_slug : Text → Tables → Result Album
get_album_by_slug slug t = one_row (find? (λ a. text_eq a.slug slug) t.albums)

-- All columns but the id, the slug, the key and the time of creation.
abbrev pub write_album : Album → Album → Album
write_album a b =
    if has_id a.id b
    then record a {
      id = b.id;
      slug = b.slug;
      idempotency_key = b.idempotency_key;
      created_at = b.created_at;
    }
    else b

unfoldable pub update_album : Album → Tables → Result Tables
update_album a t =
    if any (has_id a.id) t.albums && not (folder_exists a.folder_id t.folders)
    then err internal
    else check_affected (any (has_id a.id) t.albums)
        (record t { albums = map (write_album a) t.albums })

-- ON DELETE CASCADE takes the album's photos.
unfoldable pub delete_album : Text → Tables → Result Tables
delete_album id t = check_affected (any (has_id id) t.albums) (record t {
  albums = filter (λ a. not (has_id id a)) t.albums;
  photos = filter (λ p. not (text_eq p.album_id id)) t.photos;
})
