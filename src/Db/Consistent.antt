-- ===== src/Db/Consistent.antt =====
-- What the schema and the handlers keep true of the tables: the unique columns, the foreign keys,
-- and the folders as a tree.
pub mod OfFolders
pub mod OfAlbums
pub mod OfPhotos
use smugbox.Db.{Tables, Folder, Album, Photo}
use smugbox.Common.{List, Pairwise, ◌≢◌, Text, ◌≡◌, Bool, All, [], any, text_eq, true}
use smugbox.Db.Tree.{IsTree}
use smugbox.Db.Folders.{folder_exists}

pub record FolderApart (f g : Folder) : Type 0 where
  pub ids : f.id ≢ g.id
  pub slugs : f.slug ≢ g.slug
  pub keys : f.idempotency_key ≡ g.idempotency_key → f.idempotency_key ≡ []

pub record AlbumApart (a b : Album) : Type 0 where
  pub ids : a.id ≢ b.id
  pub slugs : a.slug ≢ b.slug
  pub keys : a.idempotency_key ≡ b.idempotency_key → a.idempotency_key ≡ []

pub record PhotoApart (p q : Photo) : Type 0 where
  pub ids : p.id ≢ q.id
  pub uuids : p.album_id ≡ q.album_id → p.lr_photo_uuid ≢ q.lr_photo_uuid

abbrev pub album_exists : List Album → Text → Bool
album_exists rows id = any (λ a. text_eq a.id id) rows

pub record IsConsistent (t : Tables) : Type 0 where
  pub folders_apart : Pairwise FolderApart t.folders
  pub albums_apart : Pairwise AlbumApart t.albums
  pub photos_apart : Pairwise PhotoApart t.photos
  pub tree : IsTree t.folders
  pub album_folders : All (λ a. folder_exists a.folder_id t.folders ≡ true) t.albums
  pub photo_albums : All (λ p. album_exists t.albums p.album_id ≡ true) t.photos
