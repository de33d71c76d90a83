-- ===== src/Db/Listed.antt =====
-- What visitors get listed: ListReadyPhotos of backend/internal/db/photos.go, and the summaries of albums
-- and folders of backend/internal/db/albums.go and backend/internal/db/folders.go. Where ORDER BY leaves
-- the order of two rows open, they stand in the order of insertion.
pub mod Ready
use smugbox.Db.{Photo, Album, Folder, Tables, one_row, protected}
use smugbox.Db.Folders.{subtree, is_in}
use smugbox.Exec.{Result}
use smugbox.Common.{
  ℕ, Text, Bool, List, Option, [], ◌∷◌, ◌++◌, filter, map, any, length, text_eq, text_lt, sort_by,
  is_empty, not, ◌&&◌, ◌||◌, ltb, ◌==◌, if◌then◌else◌, find?, none, some,
}

-- ORDER BY sort_order, taken_at, filename
abbrev pub photo_before : Photo → Photo → Bool
photo_before p q =
    ltb p.sort_order q.sort_order
    || (p.sort_order == q.sort_order
        && (text_lt p.taken_at q.taken_at
            || (text_eq p.taken_at q.taken_at && text_lt p.filename q.filename)))

abbrev pub is_ready_in : Text → Photo → Bool
is_ready_in album_id p = text_eq p.album_id album_id && p.variants_ready

unfoldable pub list_ready_photos : Text → Tables → List Photo
list_ready_photos album_id t = sort_by photo_before (filter (is_ready_in album_id) t.photos)

-- The queue of the variant worker, the longest waiting first.
unfoldable pub list_photos_pending_variants : Tables → List Photo
list_photos_pending_variants t =
    sort_by
      (λ p q. ltb p.updated_at q.updated_at || (p.updated_at == q.updated_at && text_lt p.id q.id))
      (filter (λ p. not p.variants_ready) t.photos)

pub record AlbumSummary : Type 0 where
  pub album : Album
  pub photo_count : ℕ
  pub taken_from : Text
  pub taken_to : Text
  pub resolved_cover : Text

-- MIN and MAX over the times that are not empty; the empty text where there are none.
unfoldable pub earliest : List Text → Text
earliest [] = []
earliest (s ∷ ss) =
    let rest = earliest ss in
    if is_empty s then rest else if is_empty rest || text_lt s rest then s else rest

unfoldable pub latest : List Text → Text
latest [] = []
latest (s ∷ ss) = let rest = latest ss in if text_lt rest s then s else rest

abbrev pub first_id : List Photo → Text
first_id [] = []
first_id (p ∷ ps) = p.id

-- The chosen cover if it is one of the photos, and else the first of them.
unfoldable pub resolve_cover : Text → List Photo → Text
resolve_cover chosen ps =
    if not (is_empty chosen) && any (λ p. text_eq p.id chosen) ps then chosen else first_id ps

-- summarySelect, for one album: only ready photos count.
unfoldable pub summarize : Tables → Album → AlbumSummary
unfolding list_ready_photos earliest latest resolve_cover
summarize t a =
    let ps = list_ready_photos a.id t in
    record {
      album = a;
      photo_count = length ps;
      taken_from = earliest (map (λ p. p.taken_at) ps);
      taken_to = latest (map (λ p. p.taken_at) ps);
      resolved_cover = resolve_cover a.cover_photo_id ps;
    }

unfoldable pub get_album_summary_by_slug : Text → Tables → Result AlbumSummary
unfolding summarize
get_album_summary_by_slug slug t =
    one_row (find? (λ s. text_eq s.album.slug slug) (map (summarize t) t.albums))

-- ORDER BY taken_to DESC, created_at DESC
abbrev pub newer : AlbumSummary → AlbumSummary → Bool
newer s r =
    text_lt r.taken_to s.taken_to
    || (text_eq r.taken_to s.taken_to && ltb r.album.created_at s.album.created_at)

unfoldable pub list_album_summaries_in : Text → Bool → Tables → List AlbumSummary
unfolding summarize
list_album_summaries_in folder_id listed_only t = sort_by newer (
    map (summarize t)
      (filter (λ a. text_eq a.folder_id folder_id && (not listed_only || a.is_listed)) t.albums))

unfoldable pub list_album_summaries : Bool → Tables → List AlbumSummary
unfolding summarize
list_album_summaries listed_only t =
    sort_by newer (map (summarize t) (filter (λ a. not listed_only || a.is_listed) t.albums))

pub record FolderSummary : Type 0 where
  pub folder : Folder
  pub cover_album_slug : Text
  pub newest_taken_at : Text

-- The listed albums in and beneath a folder.
unfoldable pub listed_beneath : Tables → Text → List AlbumSummary
unfolding summarize subtree
listed_beneath t id = sort_by newer (
    map (summarize t)
      (filter (λ a. a.is_listed && is_in (subtree id t.folders).0 a.folder_id) t.albums))

abbrev pub first_slug : List AlbumSummary → Text
first_slug [] = []
first_slug (s ∷ ss) = s.album.slug

-- folderSummaries, for one folder: its cover is the newest album that has a photo to show.
unfoldable pub summarize_folder : Tables → Folder → FolderSummary
unfolding listed_beneath latest
summarize_folder t f =
    let below = listed_beneath t f.id in
    record {
      folder = f;
      cover_album_slug = first_slug (filter (λ s. ltb 0 s.photo_count) below);
      newest_taken_at = latest (map (λ s. s.taken_to) below);
    }

-- Folders without a listed album somewhere beneath them are left out.
unfoldable pub list_child_folders : Text → Tables → List FolderSummary
unfolding summarize_folder listed_beneath
list_child_folders parent_id t =
    sort_by
      (λ s r.
        text_lt r.newest_taken_at s.newest_taken_at
        || (text_eq r.newest_taken_at s.newest_taken_at && text_lt s.folder.name r.folder.name))
      (map (summarize_folder t) (
        filter (λ f. text_eq f.parent_id parent_id && ltb 0 (length (listed_beneath t f.id)))
          t.folders))
