-- ===== src/Api/Visitor.antt =====
-- What visitors may see: the handlers of backend/internal/api/albums.go, backend/internal/api/folders.go and
-- backend/internal/api/photos.go, and the start of downloadAlbum (backend/internal/api/download.go). A
-- handler returns what it answers 200 with; `passwordRequired` is the answer 401. The conditional and
-- range requests of http.ServeContent are left out: the answer has the whole file.
pub mod Looked
pub mod Visible
pub mod Covers
use smugbox.Api.{or_internal, found_or, internal_error}
use smugbox.Api.Access.{album_access}
use smugbox.Api.Disposition.{content_disposition}
use smugbox.Auth.Session.{Codec}
use smugbox.Slug.{valid_slug}
use smugbox.World.{World, query, io}
use smugbox.Media.{Tools}
use smugbox.Db.{Album, Photo, Folder, protected}
use smugbox.Db.Albums.{get_album_by_slug}
use smugbox.Db.Photos.{get_photo}
use smugbox.Db.Folders.{folder_chain, get_folder_by_slug}
use smugbox.Db.Listed.{
  AlbumSummary, FolderSummary, list_ready_photos, get_album_summary_by_slug,
  list_album_summaries_in, list_child_folders,
}
use smugbox.Storage.{
  Variant, variant_name, parse_variant, file_path, FilePath, original, thumb, blur,
}
use smugbox.Storage.Disk.{read_file}
use smugbox.Library.Renditions.{served_variant}
use smugbox.Exec.{
  Exec, Result, Failure, ok, err, fail, return, lift, gets, attempt, answered, ◌>>=◌, ◌>>◌,
}
use smugbox.Common.{
  ℕ, Text, Bool, List, Option, none, some, if◌then◌else◌, not, is_some, is_empty, codes, [], ◌∷◌,
  ◌++◌, true, false, map,
}

-- One file and the headers that it is answered with.
pub record Served : Type 0 where
  pub variant : Variant
  pub content : Text
  pub content_type : Text
  pub etag : Text
  pub cache_control : Text
  pub disposition : Option Text

pub record Crumb : Type 0 where
  pub slug : Text
  pub name : Text

-- What the page of an album shows, before it is written as JSON.
pub record AlbumDetail : Type 0 where
  pub summary : AlbumSummary
  pub breadcrumb : List Crumb
  pub photos : List Photo

pub record FolderDetail : Type 0 where
  pub folder : Folder
  pub breadcrumb : List Crumb
  pub folders : List FolderSummary
  pub albums : List AlbumSummary

abbrev pub password_required : Failure
password_required = answered 401 "password_required"

abbrev pub is_original : Variant → Bool
is_original original = true
is_original v = false

abbrev pub served_file : Photo → Variant → Bool → Text → Text → Served
served_file p v download cache content = record {
  variant = v;
  content = content;
  content_type = if is_original v then p.mime_type else codes "image/jpeg";
  etag = b'"' ∷ p.content_hash ++ (b'-' ∷ variant_name v ++ (b'"' ∷ []));
  cache_control = cache;
  disposition = if download then some (content_disposition p.filename) else none;
}

module _ (tools : Tools) where
  -- `Library.Open`: `none` where there is no such file.
  unfoldable pub open_variant : Photo → Variant → Exec World (Option Text)
  open_variant p v = do
    path ← lift (file_path tools.parse_uuid p.album_id p.id (served_variant p v) p.mime_type)
    io
    gets (λ w. read_file path w.disk)

  abbrev pub answer_file : Photo → Variant → Bool → Text → Result (Option Text) → Exec World Served
  answer_file p v download cache (err e) = fail internal_error
  answer_file p v download cache (ok none) = fail (answered 404 "file_missing")
  answer_file p v download cache (ok (some content)) = do
    r ← attempt io
    or_internal r
    return (served_file p v download cache content)

  -- `serveVariant`; `v` in the headers is the variant that the file is.
  unfoldable pub serve_variant : Photo → Variant → Bool → Text → Exec World Served
  unfolding open_variant served_variant or_internal content_disposition
  serve_variant p v download cache = do
    r ← attempt (open_variant p v)
    answer_file p (served_variant p v) download cache r

  module _ (codec : Codec) (now : ℕ) (cookie : Option Text) where
    -- The album of a slug, where the visitor may see its content.
    unfoldable pub visible_album : Text → Exec World Album
    unfolding found_or
    visible_album slug = do
      r ← attempt (query (get_album_by_slug slug))
      a ← found_or 404 "album_not_found" r
      if album_access codec now cookie a then return a else fail password_required

    -- The photo of an album whose variants exist.
    unfoldable pub visible_photo : Text → Text → Exec World Photo
    unfolding found_or
    visible_photo album_id photo_id = do
      r ← attempt (query (get_photo album_id photo_id))
      p ← found_or 404 "photo_not_found" r
      if p.variants_ready then return p else fail (answered 404 "photo_not_found")

    abbrev pub photo_cache : Album → Text
    photo_cache a =
        if protected a then codes "private, max-age=3600" else codes "public, max-age=86400"

    abbrev pub photo_variant : Text → Text → Bool → Option Variant → Exec World Served
    photo_variant slug photo_id download none = fail (answered 404 "variant_not_found")
    photo_variant slug photo_id download (some v) =
        if not (is_some (tools.parse_uuid photo_id))
        then fail (answered 404 "photo_not_found")
        else do
          a ← visible_album slug
          p ← visible_photo a.id photo_id
          serve_variant p v download (photo_cache a)

    -- `getPhotoVariant`
    unfoldable pub get_photo_variant : Text → Text → Text → Bool → Exec World Served
    unfolding visible_album visible_photo serve_variant parse_variant valid_slug
    get_photo_variant slug photo_id variant download =
        if not (valid_slug slug)
        then fail (answered 404 "album_not_found")
        else photo_variant slug photo_id download (parse_variant variant)

    -- `summaryFromPath`
    unfoldable pub summary_from_path : Text → Exec World AlbumSummary
    unfolding found_or valid_slug
    summary_from_path slug =
        if not (valid_slug slug) then fail (answered 404 "album_not_found") else do
          r ← attempt (query (get_album_summary_by_slug slug))
          found_or 404 "album_not_found" r

    -- `folderBreadcrumb`
    unfoldable pub folder_breadcrumb : Text → Exec World (List Crumb)
    unfolding or_internal
    folder_breadcrumb folder_id = if is_empty folder_id then return [] else do
      r ← attempt (query (λ t. ok (folder_chain folder_id t)))
      chain ← or_internal r
      return (map (λ f. record { slug = f.slug; name = f.name }) chain)

    -- `getAlbum`
    unfoldable pub get_album_page : Text → Exec World AlbumDetail
    unfolding summary_from_path folder_breadcrumb or_internal
    get_album_page slug = do
      s ← summary_from_path slug
      crumbs ← folder_breadcrumb s.album.folder_id
      if album_access codec now cookie s.album
          then (do
            r ← attempt (query (λ t. ok (list_ready_photos s.album.id t)))
            ps ← or_internal r
            return (record { summary = s; breadcrumb = crumbs; photos = ps }))
          else fail password_required

    -- The blurred placeholder is all that a locked album shows.
    abbrev pub cover_variant : Album → Variant
    cover_variant a = if protected a then blur else thumb

    -- `albumCover`
    unfoldable pub album_cover : Text → Exec World Served
    unfolding summary_from_path serve_variant
    album_cover slug = do
      s ← summary_from_path slug
      if is_empty s.resolved_cover then fail (answered 404 "no_cover") else do
        r ← attempt (query (get_photo s.album.id s.resolved_cover))
        p ← or_internal r
        serve_variant p (cover_variant s.album) false (codes "public, max-age=300")

    -- `listAlbums`: the root of the tree.
    unfoldable pub list_albums : Exec World (List FolderSummary × List AlbumSummary)
    unfolding or_internal
    list_albums = do
      r ← attempt (query (λ t. ok (list_child_folders [] t)))
      folders ← or_internal r
      q ← attempt (query (λ t. ok (list_album_summaries_in [] true t)))
      albums ← or_internal q
      return (folders, albums)

    -- `getFolder`
    unfoldable pub get_folder_page : Text → Exec World FolderDetail
    unfolding folder_breadcrumb or_internal found_or valid_slug
    get_folder_page slug =
        if not (valid_slug slug) then fail (answered 404 "folder_not_found") else do
          r ← attempt (query (get_folder_by_slug slug))
          f ← found_or 404 "folder_not_found" r
          crumbs ← folder_breadcrumb f.parent_id
          q ← attempt (query (λ t. ok (list_child_folders f.id t)))
          folders ← or_internal q
          s ← attempt (query (λ t. ok (list_album_summaries_in f.id true t)))
          albums ← or_internal s
          return (record { folder = f; breadcrumb = crumbs; folders = folders; albums = albums })
