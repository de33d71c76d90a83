-- ===== src/Db/Consistent/OfPhotos.antt =====
-- The statements on photos keep the tables consistent.
use smugbox.Db.Photos.{
  is_photo, same_lr, insert_photo, update_photo, mark_variants_pending, mark_variants_ready,
  delete_photo, at_photo, update_row, write_photo, set_ready, order_from, set_photo_order, set_sort,
}
use smugbox.Db.Consistent.{IsConsistent, PhotoApart, album_exists}
use smugbox.Db.{Photo, Tables}
use smugbox.Common.{
  List, ◌≡◌, map, Text, any, Pairwise-map, arith, false, filter, text_eq, All-mapped, not, All,
  Pairwise-filter, ◌∷◌, true, All-filter, text_eq_iff, ◌++◌, [], Pairwise-append_last, All-append,
  Pairwise, ℕ, suc,
}
use smugbox.Exec.{ok}

with_photos :
    (t : Tables) (ps : List Photo)
    → IsConsistent t
    → Pairwise PhotoApart ps
    → All (λ q. album_exists t.albums q.album_id ≡ true) ps
    → IsConsistent (record t { photos = ps })
with_photos t ps c a h = record {
  folders_apart = c.folders_apart;
  albums_apart = c.albums_apart;
  photos_apart = a;
  tree = c.tree;
  album_folders = c.album_folders;
  photo_albums = h;
}

All-apart :
    (p : Photo) (rows : List Photo)
    → any (same_lr p.album_id p.lr_photo_uuid) rows ≡ false
    → any (λ q. text_eq q.id p.id) rows ≡ false
    → All (λ q. PhotoApart q p) rows
All-apart p [] u i = tt
All-apart p (q ∷ rows) u i = (
  record {
    ids = ground (arith, text_eq_iff q.id p.id);
    uuids = λ a e. absurd (
        ground
          (arith, text_eq_iff q.album_id p.album_id, text_eq_iff q.lr_photo_uuid p.lr_photo_uuid));
  },
  All-apart p rows (ground arith) (ground arith),
)

-- An insert of a photo that succeeds keeps the tables consistent.
pub insert_photo-IsConsistent :
    (p : Photo) (t t' : Tables) → IsConsistent t → insert_photo p t ≡ ok t' → IsConsistent t'
unfolding insert_photo
insert_photo-IsConsistent p t t' c e =
    let uuid_free : any (same_lr p.album_id p.lr_photo_uuid) t.photos ≡ false = ground arith in
    let id_free : any (λ q. text_eq q.id p.id) t.photos ≡ false = ground arith in
    let album : album_exists t.albums p.album_id ≡ true = ground arith in
    let after : t' ≡ record t { photos = t.photos ++ p ∷ [] } = ground arith in
    rw after (
      with_photos t (t.photos ++ p ∷ []) c
        (Pairwise-append_last PhotoApart t.photos p c.photos_apart
          (All-apart p t.photos uuid_free id_free))
        (All-append (λ q. album_exists t.albums q.album_id ≡ true) t.photos (p ∷ []) c.photo_albums
          (album, tt)))

-- A change of rows that leaves their ids, albums and Lightroom uuids alone.
record KeepsIds (f : Photo → Photo) : Type 0 where
  id : (p : Photo) → (f p).id ≡ p.id
  album : (p : Photo) → (f p).album_id ≡ p.album_id
  uuid : (p : Photo) → (f p).lr_photo_uuid ≡ p.lr_photo_uuid

map-IsConsistent :
    (f : Photo → Photo) (t : Tables)
    → KeepsIds f
    → IsConsistent t
    → IsConsistent (record t { photos = map f t.photos })
map-IsConsistent f t k c =
    with_photos t (map f t.photos) c
      (Pairwise-map PhotoApart f
        (λ p q r. record {
          ids = ground (arith, r.ids, k.id p, k.id q);
          uuids = λ a e. r.uuids (cc (a, k.album p, k.album q)) (cc (e, k.uuid p, k.uuid q));
        })
        t.photos c.photos_apart)
      (All-mapped (λ p. album_exists t.albums p.album_id ≡ true) f t.photos
        (λ p h. rw (k.album p) h) c.photo_albums)

update_row-IsConsistent :
    (album_id id : Text) (f : Photo → Photo) (t t' : Tables)
    → KeepsIds (at_photo album_id id f)
    → IsConsistent t
    → update_row album_id id f t ≡ ok t'
    → IsConsistent t'
update_row-IsConsistent album_id id f t t' k c e =
    let after : t' ≡ record t { photos = map (at_photo album_id id f) t.photos } = ground arith in
    rw after (map-IsConsistent (at_photo album_id id f) t k c)

-- The update of the metadata, and both changes of the flag, keep the tables consistent.
pub update_photo-IsConsistent :
    (p : Photo) (t t' : Tables) → IsConsistent t → update_photo p t ≡ ok t' → IsConsistent t'
unfolding update_photo
update_photo-IsConsistent p t t' c e =
    update_row-IsConsistent p.album_id p.id (write_photo p) t t'
      (record { id = λ q. ground arith; album = λ q. ground arith; uuid = λ q. ground arith }) c e

pub mark_variants_pending-IsConsistent :
    (album_id id : Text) (t t' : Tables)
    → IsConsistent t
    → mark_variants_pending album_id id t ≡ ok t'
    → IsConsistent t'
unfolding mark_variants_pending
mark_variants_pending-IsConsistent album_id id t t' c e =
    update_row-IsConsistent album_id id (set_ready false) t t'
      (record { id = λ q. ground arith; album = λ q. ground arith; uuid = λ q. ground arith }) c e

pub mark_variants_ready-IsConsistent :
    (album_id id hash : Text) (t : Tables)
    → IsConsistent t
    → IsConsistent (mark_variants_ready album_id id hash t).1
unfolding mark_variants_ready
mark_variants_ready-IsConsistent album_id id hash t c =
    map-IsConsistent _ t
      (record { id = λ q. ground arith; album = λ q. ground arith; uuid = λ q. ground arith }) c

pub delete_photo-IsConsistent :
    (album_id id : Text) (t t' : Tables)
    → IsConsistent t
    → delete_photo album_id id t ≡ ok t'
    → IsConsistent t'
unfolding delete_photo
delete_photo-IsConsistent album_id id t t' c e =
    let after : t' ≡ record t { photos = filter (λ p. not (is_photo album_id id p)) t.photos } =
      ground arith in
    rw after (
      with_photos t _ c
        (Pairwise-filter PhotoApart (λ p. not (is_photo album_id id p)) t.photos c.photos_apart)
        (All-filter (λ p. album_exists t.albums p.album_id ≡ true)
          (λ p. not (is_photo album_id id p)) t.photos c.photo_albums))

order_from-IsConsistent :
    (album_id : Text) (ids : List Text) (i : ℕ) (t : Tables) (ps : List Photo)
    → IsConsistent (record t { photos = ps })
    → IsConsistent (record t { photos = order_from album_id i ids ps })
unfolding order_from
order_from-IsConsistent album_id [] i t ps c = c
order_from-IsConsistent album_id (id ∷ ids) i t ps c =
    order_from-IsConsistent album_id ids (suc i) t
      (map (at_photo album_id id (set_sort (suc i))) ps)
      (map-IsConsistent (at_photo album_id id (set_sort (suc i))) (record t { photos = ps })
        (record { id = λ q. ground arith; album = λ q. ground arith; uuid = λ q. ground arith }) c)

pub set_photo_order-IsConsistent :
    (album_id : Text) (ids : List Text) (t : Tables)
    → IsConsistent t
    → IsConsistent (set_photo_order album_id ids t)
unfolding set_photo_order
set_photo_order-IsConsistent album_id ids t c = order_from-IsConsistent album_id ids 0 t _ (
    map-IsConsistent _ t
      (record { id = λ q. ground arith; album = λ q. ground arith; uuid = λ q. ground arith }) c)
