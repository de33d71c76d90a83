-- ===== src/Db/Consistent/OfFolders.antt =====
-- The statements on folders keep the tables consistent.
use smugbox.Db.Folders.{
  has_id, same_key, create_folder, update_folder, folder_exists, write_folder, folder_chain,
  delete_folder, subtree, is_in,
}
use smugbox.Db.Consistent.{IsConsistent, FolderApart, album_exists, AlbumApart, PhotoApart}
use smugbox.Db.{Folder, Tables, Album}
use smugbox.Common.{
  any, text_eq, List, Text, ◌≢◌, ◌≡◌, false, ◌++◌, true, map, ◌∷◌, arith, not, All, find?,
  any-map_same, [], is_empty, any-append, Pairwise-append_last, ◌&&◌, find?-append, some,
  text_eq_iff, Bool-cases, All-append, Pairwise-map, text_eq_refl, All-map, inl, ◌∙◌, inr, Pairwise,
  filter, Pairwise-filter, All-filter_with,
}
use smugbox.Db.Tree.{Rooted, top, under}
use smugbox.Exec.{ok}
use smugbox.Db.Tree.Move.{Rooted-of_exists, update_folder-IsTree}
use smugbox.Db.Tree.Grow.{Distinct}
use smugbox.Db.Tree.Drop.{subtree-Pairwise, subtree-IsTree, subtree_exists}

-- What a successful insert has checked.
record IsInserted (f : Folder) (t t' : Tables) : Type 0 where
  slug_free : any (λ g. text_eq g.slug f.slug) t.folders ≡ false
  key_free : any (same_key f.idempotency_key) t.folders ≡ false
  id_free : any (has_id f.id) t.folders ≡ false
  parent : folder_exists f.parent_id (t.folders ++ f ∷ []) ≡ true
  after : t' ≡ record t { folders = t.folders ++ f ∷ [] }

create_folder-IsInserted :
    (f : Folder) (t t' : Tables) → create_folder f t ≡ ok t' → IsInserted f t t'
unfolding create_folder
create_folder-IsInserted f t t' e = record {
  slug_free = ground arith;
  key_free = ground arith;
  id_free = ground arith;
  parent = ground arith;
  after = ground arith;
}

folder_apart :
    (f g : Folder)
    → text_eq g.slug f.slug ≡ false
    → same_key f.idempotency_key g ≡ false
    → has_id f.id g ≡ false
    → FolderApart g f
folder_apart f g s k i = record {
  ids = ground (arith, text_eq_iff g.id f.id);
  slugs = ground (arith, text_eq_iff g.slug f.slug);
  keys = λ e. key_empty f.idempotency_key g.idempotency_key e k;
}
  where
    key_empty : (k j : Text) → j ≡ k → (not (is_empty k) && text_eq j k) ≡ false → j ≡ []
    key_empty [] j e h = e
    key_empty (c ∷ k) j e h = absurd (ground (arith, text_eq_iff j (c ∷ k)))

All-apart :
    (f : Folder) (fs : List Folder)
    → any (λ g. text_eq g.slug f.slug) fs ≡ false
    → any (same_key f.idempotency_key) fs ≡ false
    → any (has_id f.id) fs ≡ false
    → All (λ g. FolderApart g f) fs
All-apart f [] s k i = tt
All-apart f (g ∷ fs) s k i = (
  folder_apart f g (ground arith) (ground arith) (ground arith),
  All-apart f fs (ground arith) (ground arith) (ground arith),
)

Rooted-append : (fs gs : List Folder) {id : Text} → Rooted fs id → Rooted (fs ++ gs) id
Rooted-append fs gs (top e) = top e
Rooted-append fs gs (under {id} f n e d) =
    under f n (find?-append (has_id id) fs gs f e) (Rooted-append fs gs d)

find?-last :
    (f : Folder) (fs : List Folder)
    → any (has_id f.id) fs ≡ false
    → find? (has_id f.id) (fs ++ f ∷ []) ≡ some f
find?-last f [] h = rw (text_eq_refl f.id)
find?-last f (g ∷ fs) h = ground (arith, find?-last f fs)

exists-append :
    (id : Text) (fs gs : List Folder)
    → folder_exists id fs ≡ true
    → folder_exists id (fs ++ gs) ≡ true
exists-append id fs gs h = ground (arith, any-append (has_id id) fs gs)

exists_other :
    (id : Text) (f : Folder) (fs : List Folder)
    → id ≢ f.id
    → folder_exists id (fs ++ f ∷ []) ≡ true
    → folder_exists id fs ≡ true
exists_other id f fs n h = ground (arith, any-append (has_id id) fs (f ∷ []), text_eq_iff f.id id)

Rooted-new :
    (f : Folder) (fs : List Folder)
    → any (has_id f.id) fs ≡ false
    → Rooted (fs ++ f ∷ []) f.parent_id
    → Rooted (fs ++ f ∷ []) f.id
Rooted-new f fs h d = elim (Bool-cases (is_empty f.id)) [
  | inl root ↦ top (ground arith)
  | inr named ↦ under f named (find?-last f fs h) d
]

-- A new folder keeps the tables consistent, unless it names itself as its parent.
pub create_folder-IsConsistent :
    (f : Folder) (t t' : Tables)
    → f.parent_id ≢ f.id
    → IsConsistent t
    → create_folder f t ≡ ok t'
    → IsConsistent t'
create_folder-IsConsistent f t t' n c e =
    let i = create_folder-IsInserted f t t' e in
    let parent =
      Rooted-of_exists t.folders f.parent_id c.tree
        (exists_other f.parent_id f t.folders n i.parent) in
    rw i.after (record {
      folders_apart =
          Pairwise-append_last FolderApart t.folders f c.folders_apart
            (All-apart f t.folders i.slug_free i.key_free i.id_free);
      albums_apart = c.albums_apart;
      photos_apart = c.photos_apart;
      tree =
          All-append (λ g. Rooted (t.folders ++ f ∷ []) g.id) t.folders (f ∷ [])
            (All-map (λ g d. Rooted-append t.folders (f ∷ []) d) t.folders c.tree)
            (Rooted-new f t.folders i.id_free (Rooted-append t.folders (f ∷ []) parent), tt);
      album_folders =
          All-map (λ a h. exists-append a.folder_id t.folders (f ∷ []) h) t.albums c.album_folders;
      photo_albums = c.photo_albums;
    })

write_folder-apart :
    (f : Folder) (g h : Folder)
    → FolderApart g h
    → FolderApart (write_folder f g) (write_folder f h)
write_folder-apart f g h a = ground (arith, a.ids, a.slugs, a.keys)

exists-write :
    (f : Folder) (id : Text) (fs : List Folder)
    → folder_exists id (map (write_folder f) fs) ≡ folder_exists id fs
exists-write f id fs = rw (any-map_same (has_id id) (write_folder f) fs (λ g. ground arith))

-- An update of a folder that succeeds keeps the tables consistent if the chain of the new parent
-- does not contain the folder.
pub update_folder-IsConsistent :
    (f : Folder) (t t' : Tables)
    → any (has_id f.id) (folder_chain f.parent_id t) ≡ false
    → IsConsistent t
    → update_folder f t ≡ ok t'
    → IsConsistent t'
unfolding update_folder
update_folder-IsConsistent f t t' n c e =
    let after : t' ≡ record t { folders = map (write_folder f) t.folders } = ground arith in
    let tree = update_folder-IsTree f t t' c.tree n e in
    rw after (record {
      folders_apart =
          Pairwise-map FolderApart (write_folder f) (write_folder-apart f) t.folders
            c.folders_apart;
      albums_apart = c.albums_apart;
      photos_apart = c.photos_apart;
      tree = rw after at tree;
      album_folders =
          All-map (λ a h. exists-write f a.folder_id t.folders ∙ h) t.albums c.album_folders;
      photo_albums = c.photo_albums;
    })

Pairwise-ids : (fs : List Folder) → Pairwise FolderApart fs → Pairwise Distinct fs
Pairwise-ids [] h = tt
Pairwise-ids (f ∷ fs) (a, h) = (All-map (λ g r. r.ids) fs a, Pairwise-ids fs h)

-- A photo whose album is not dropped still has it.
album_kept :
    (gone : List Text) (rows : List Album) (id : Text)
    → album_exists rows id ≡ true
    → is_in (map (λ a. a.id) (filter (λ a. is_in gone a.folder_id) rows)) id ≡ false
    → album_exists (filter (λ a. not (is_in gone a.folder_id)) rows) id ≡ true
album_kept gone [] id h n = h
album_kept gone (a ∷ rows) id h n =
    ground (arith, album_kept gone rows id, text_eq_iff a.id id, text_eq_iff id a.id)

-- The deletion of a folder that succeeds, with all that cascades from it, keeps the tables
-- consistent: no folder, album or photo is left behind under a row that is gone.
pub delete_folder-IsConsistent :
    (id : Text) (t t' : Tables) → IsConsistent t → delete_folder id t ≡ ok t' → IsConsistent t'
unfolding delete_folder
delete_folder-IsConsistent id t t' c e =
    let here : any (has_id id) t.folders ≡ true = ground arith in
    let gone = (subtree id t.folders).0 in
    let after : t' ≡ record t {
      folders = (subtree id t.folders).1;
      albums = filter (λ a. not (is_in gone a.folder_id)) t.albums;
      photos =
          filter
            (λ p.
              not (
                is_in (map (λ a. a.id) (filter (λ a. is_in gone a.folder_id) t.albums)) p.album_id))
            t.photos;
    } =
      ground arith in
    let distinct = Pairwise-ids t.folders c.folders_apart in
    rw after (record {
      folders_apart = subtree-Pairwise id t.folders FolderApart c.folders_apart;
      albums_apart =
          Pairwise-filter AlbumApart (λ a. not (is_in gone a.folder_id)) t.albums c.albums_apart;
      photos_apart = Pairwise-filter PhotoApart _ t.photos c.photos_apart;
      tree = subtree-IsTree id t.folders distinct here c.tree;
      album_folders =
          All-filter_with (λ a. folder_exists a.folder_id t.folders ≡ true)
            (λ a. folder_exists a.folder_id (subtree id t.folders).1 ≡ true)
            (λ a. not (is_in gone a.folder_id)) t.albums
            (λ a h n. subtree_exists id t.folders a.folder_id h (ground arith)) c.album_folders;
      photo_albums =
          All-filter_with (λ p. album_exists t.albums p.album_id ≡ true)
            (λ p.
              album_exists (filter (λ a. not (is_in gone a.folder_id)) t.albums) p.album_id ≡ true)
            (λ p.
              not (
                is_in (map (λ a. a.id) (filter (λ a. is_in gone a.folder_id) t.albums)) p.album_id))
            t.photos (λ p h n. album_kept gone t.albums p.album_id h (ground arith)) c.photo_albums;
    })
