-- ===== src/Db/Consistent/OfAlbums.antt =====
-- The statements on albums keep the tables consistent.
use smugbox.Db.Albums.{has_id, same_key, create_album, update_album, delete_album, write_album}
use smugbox.Db.Consistent.{IsConsistent, AlbumApart, album_exists, PhotoApart}
use smugbox.Db.{Album, Tables}
use smugbox.Common.{
  any, text_eq, List, Text, ◌≡◌, false, arith, map, true, not, All, Pairwise-append_last,
  any-map_same, filter, ◌++◌, is_empty, ◌∷◌, All-append, Pairwise-map, Pairwise-filter, [], ◌&&◌,
  All-mapped, text_eq_iff, All-map, All-filter, any-append, ◌∙◌, All-filter_with, refl,
}
use smugbox.Exec.{ok}
use smugbox.Db.Folders.{folder_exists}

record IsInserted (a : Album) (t t' : Tables) : Type 0 where
  slug_free : any (λ b. text_eq b.slug a.slug) t.albums ≡ false
  key_free : any (same_key a.idempotency_key) t.albums ≡ false
  id_free : any (has_id a.id) t.albums ≡ false
  parent : folder_exists a.folder_id t.folders ≡ true
  after : t' ≡ record t { albums = t.albums ++ a ∷ [] }

create_album-IsInserted : (a : Album) (t t' : Tables) → create_album a t ≡ ok t' → IsInserted a t t'
unfolding create_album
create_album-IsInserted a t t' e = record {
  slug_free = ground arith;
  key_free = ground arith;
  id_free = ground arith;
  parent = ground arith;
  after = ground arith;
}

album_apart :
    (a b : Album)
    → text_eq b.slug a.slug ≡ false
    → same_key a.idempotency_key b ≡ false
    → has_id a.id b ≡ false
    → AlbumApart b a
album_apart a b s k i = record {
  ids = ground (arith, text_eq_iff b.id a.id);
  slugs = ground (arith, text_eq_iff b.slug a.slug);
  keys = λ e. key_empty a.idempotency_key b.idempotency_key e k;
}
  where
    key_empty : (k j : Text) → j ≡ k → (not (is_empty k) && text_eq j k) ≡ false → j ≡ []
    key_empty [] j e h = e
    key_empty (c ∷ k) j e h = absurd (ground (arith, text_eq_iff j (c ∷ k)))

All-apart :
    (a : Album) (rows : List Album)
    → any (λ b. text_eq b.slug a.slug) rows ≡ false
    → any (same_key a.idempotency_key) rows ≡ false
    → any (has_id a.id) rows ≡ false
    → All (λ b. AlbumApart b a) rows
All-apart a [] s k i = tt
All-apart a (b ∷ rows) s k i = (
  album_apart a b (ground arith) (ground arith) (ground arith),
  All-apart a rows (ground arith) (ground arith) (ground arith),
)

-- A new album keeps the tables consistent.
pub create_album-IsConsistent :
    (a : Album) (t t' : Tables) → IsConsistent t → create_album a t ≡ ok t' → IsConsistent t'
create_album-IsConsistent a t t' c e =
    let i = create_album-IsInserted a t t' e in
    rw i.after (record {
      folders_apart = c.folders_apart;
      albums_apart =
          Pairwise-append_last AlbumApart t.albums a c.albums_apart
            (All-apart a t.albums i.slug_free i.key_free i.id_free);
      photos_apart = c.photos_apart;
      tree = c.tree;
      album_folders =
          All-append (λ b. folder_exists b.folder_id t.folders ≡ true) t.albums (a ∷ [])
            c.album_folders (i.parent, tt);
      photo_albums =
          All-map (λ p h. any-append (has_id p.album_id) t.albums (a ∷ []) ∙ rw h refl) t.photos
            c.photo_albums;
    })

write_album-apart :
    (a : Album) (b d : Album) → AlbumApart b d → AlbumApart (write_album a b) (write_album a d)
write_album-apart a b d r = ground (arith, r.ids, r.slugs, r.keys)

exists-write :
    (a : Album) (rows : List Album) (id : Text)
    → album_exists (map (write_album a) rows) id ≡ album_exists rows id
exists-write a rows id = any-map_same (has_id id) (write_album a) rows (λ b. ground arith)

-- So does an update, whose folder must exist if the row does.
pub update_album-IsConsistent :
    (a : Album) (t t' : Tables) → IsConsistent t → update_album a t ≡ ok t' → IsConsistent t'
unfolding update_album
update_album-IsConsistent a t t' c e =
    let parent : folder_exists a.folder_id t.folders ≡ true = ground arith in
    let after : t' ≡ record t { albums = map (write_album a) t.albums } = ground arith in
    rw after (record {
      folders_apart = c.folders_apart;
      albums_apart =
          Pairwise-map AlbumApart (write_album a) (write_album-apart a) t.albums c.albums_apart;
      photos_apart = c.photos_apart;
      tree = c.tree;
      album_folders =
          All-mapped (λ b. folder_exists b.folder_id t.folders ≡ true) (write_album a) t.albums
            (λ b h. ground (arith, parent, h)) c.album_folders;
      photo_albums =
          All-map (λ p h. exists-write a t.albums p.album_id ∙ h) t.photos c.photo_albums;
    })

exists-without :
    (id j : Text) (rows : List Album)
    → album_exists rows j ≡ true
    → text_eq j id ≡ false
    → album_exists (filter (λ a. not (has_id id a)) rows) j ≡ true
exists-without id j [] h n = h
exists-without id j (a ∷ rows) h n =
    ground
      (arith, exists-without id j rows, text_eq_iff a.id id, text_eq_iff a.id j, text_eq_iff j id)

-- The deletion of an album that succeeds keeps the tables consistent: its photos go with it.
pub delete_album-IsConsistent :
    (id : Text) (t t' : Tables) → IsConsistent t → delete_album id t ≡ ok t' → IsConsistent t'
unfolding delete_album
delete_album-IsConsistent id t t' c e =
    let after : t' ≡ record t {
      albums = filter (λ a. not (has_id id a)) t.albums;
      photos = filter (λ p. not (text_eq p.album_id id)) t.photos;
    } =
      ground arith in
    rw after (record {
      folders_apart = c.folders_apart;
      albums_apart = Pairwise-filter AlbumApart (λ a. not (has_id id a)) t.albums c.albums_apart;
      photos_apart =
          Pairwise-filter PhotoApart (λ p. not (text_eq p.album_id id)) t.photos c.photos_apart;
      tree = c.tree;
      album_folders =
          All-filter (λ b. folder_exists b.folder_id t.folders ≡ true) (λ a. not (has_id id a))
            t.albums c.album_folders;
      photo_albums =
          All-filter_with (λ p. album_exists t.albums p.album_id ≡ true)
            (λ p. album_exists (filter (λ a. not (has_id id a)) t.albums) p.album_id ≡ true)
            (λ p. not (text_eq p.album_id id)) t.photos
            (λ p h n. exists-without id p.album_id t.albums h (ground arith)) c.photo_albums;
    })
