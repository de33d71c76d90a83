-- ===== src/Db/Photos.antt =====
-- backend/internal/db/photos.go: the statements on photos.
pub mod Order
use smugbox.Db.{Photo, Tables, PhotoRef, check_affected, one_row}
use smugbox.Common.{
  Text, Bool, ℕ, text_eq, if◌then◌else◌, ◌&&◌, List, any, ◌∷◌, length, map, suc, ◌+◌, [], true,
  false, find?, filter, not, ◌++◌,
}
use smugbox.Exec.{Result, err, photo_exists, internal, ok}

-- WHERE album_id = ? AND id = ?
abbrev pub is_photo : Text → Text → Photo → Bool
is_photo album_id id p = text_eq p.album_id album_id && text_eq p.id id

abbrev pub same_lr : Text → Text → Photo → Bool
same_lr album_id lr p = text_eq p.album_id album_id && text_eq p.lr_photo_uuid lr

-- The unique pair of album and Lightroom uuid gives `ErrPhotoExists`; the primary key and the
-- album's foreign key are internal errors.
unfoldable pub insert_photo : Photo → Tables → Result Tables
insert_photo p t =
    if any (same_lr p.album_id p.lr_photo_uuid) t.photos
    then err photo_exists
    else if any (λ q. text_eq q.id p.id) t.photos
    then err internal
    else if any (λ a. text_eq a.id p.album_id) t.albums
    then ok (record t { photos = t.photos ++ p ∷ [] })
    else err internal

abbrev pub at_photo : Text → Text → (Photo → Photo) → Photo → Photo
at_photo album_id id f p = if is_photo album_id id p then f p else p

-- An UPDATE of the row of one photo.
abbrev pub update_row : Text → Text → (Photo → Photo) → Tables → Result Tables
update_row album_id id f t =
    check_affected (any (is_photo album_id id) t.photos)
      (record t { photos = map (at_photo album_id id f) t.photos })

-- The file and metadata columns; the ids, the order, the flag and the time of creation stay.
abbrev pub write_photo : Photo → Photo → Photo
write_photo p q = record p {
  id = q.id;
  album_id = q.album_id;
  lr_photo_uuid = q.lr_photo_uuid;
  sort_order = q.sort_order;
  variants_ready = q.variants_ready;
  created_at = q.created_at;
}

unfoldable pub update_photo : Photo → Tables → Result Tables
update_photo p t = update_row p.album_id p.id (write_photo p) t

unfoldable pub get_photo : Text → Text → Tables → Result Photo
get_photo album_id id t = one_row (find? (is_photo album_id id) t.photos)

unfoldable pub get_photo_by_lr_uuid : Text → Text → Tables → Result Photo
get_photo_by_lr_uuid album_id lr t = one_row (find? (same_lr album_id lr) t.photos)

abbrev pub set_ready : Bool → Photo → Photo
set_ready ready p = record p { variants_ready = ready }

unfoldable pub mark_variants_pending : Text → Text → Tables → Result Tables
mark_variants_pending album_id id t = update_row album_id id (set_ready false) t

-- Only where the row still has this hash; the answer says whether a row was updated.
unfoldable pub mark_variants_ready : Text → Text → Text → Tables → Bool × Tables
mark_variants_ready album_id id hash t =
    let hit = λ (p : Photo). is_photo album_id id p && text_eq p.content_hash hash in
    (
      any hit t.photos,
      record t { photos = map (λ p. if hit p then set_ready true p else p) t.photos },
    )

unfoldable pub delete_photo : Text → Text → Tables → Result Tables
delete_photo album_id id t =
    check_affected (any (is_photo album_id id) t.photos)
      (record t { photos = filter (λ p. not (is_photo album_id id p)) t.photos })

abbrev pub set_sort : ℕ → Photo → Photo
set_sort n p = record p { sort_order = n }

-- The loop of `SetPhotoOrder` from position `i` on.
unfoldable pub order_from : Text → ℕ → List Text → List Photo → List Photo
order_from album_id i [] ps = ps
order_from album_id i (id ∷ ids) ps =
    order_from album_id (suc i) ids (map (at_photo album_id id (set_sort (suc i))) ps)

-- Every photo of the album goes behind the listed ones; then these get their positions.
unfoldable pub set_photo_order : Text → List Text → Tables → Tables
unfolding order_from
set_photo_order album_id ids t =
    let behind =
      λ (p : Photo). if text_eq p.album_id album_id then set_sort (length ids + 1) p else p in
    record t { photos = order_from album_id 0 ids (map behind t.photos) }

unfoldable pub list_photo_refs : Tables → List PhotoRef
list_photo_refs t = map (λ p. record { album_id = p.album_id; id = p.id }) t.photos
