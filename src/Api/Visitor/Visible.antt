-- ===== src/Api/Visitor/Visible.antt =====
-- Whatever a visitor is served from an album's photos, he may see.
use smugbox.Api.Visitor.{
  Served, open_variant, answer_file, serve_variant, visible_album, visible_photo, photo_variant,
  photo_cache, get_photo_variant, password_required, served_file,
}
use smugbox.Api.Visitor.Looked.{
  if-protected, Same, Any, Knowing, io-Same, or_internal-Same, returned, query-Same, found_or-Same,
}
use smugbox.Api.{internal_error}
use smugbox.Api.Access.{album_access}
use smugbox.Auth.Session.{Codec}
use smugbox.World.{World, io}
use smugbox.Media.{Tools}
use smugbox.Db.{Album, Photo, Tables}
use smugbox.Db.Albums.{get_album_by_slug}
use smugbox.Db.Photos.{get_photo}
use smugbox.Storage.{Variant, FilePath, parse_variant, file_path}
use smugbox.Storage.Disk.{StoredFile, read_file}
use smugbox.Library.Renditions.{served_variant}
use smugbox.Exec.{Result, ok, err, attempt, lift, answered}
use smugbox.Exec.Runs.{
  Runs, Runs-bind, Runs-if, Runs-fail, Runs-return, Runs-attempt, Runs-lift, Runs_weaken, Post,
  Runs-given,
}
use smugbox.Common.{
  ℕ, Text, Bool, List, Option, none, some, ◌≡◌, true, ap, refl, sym, if◌then◌else◌, subst, is_empty,
  codes,
}

module _ (tools : Tools) (t : Tables) (d : List StoredFile) where
  -- The answer has the file of the photo that serves the variant, under these caching headers.
  pub record IsFile (p : Photo) (v : Variant) (cache : Text) (s : Served) : Type 0 where
    pub path : FilePath
    pub names :
        file_path tools.parse_uuid p.album_id p.id (served_variant p v) p.mime_type ≡ ok path
    pub read : read_file path d ≡ some s.content
    pub sent : s.variant ≡ served_variant p v
    pub cached : s.cache_control ≡ cache

  abbrev Opened : Photo → Variant → Option Text → Type 0
  Opened p v o =
      (x : FilePath) × (file_path tools.parse_uuid p.album_id p.id (served_variant p v) p.mime_type
        ≡ ok x)
      × (read_file x d ≡ o)

  open_variant-Same :
      (p : Photo) (v : Variant)
      → Runs (Same t d) (open_variant tools p v) (Knowing t d (Opened p v)) (Same t d)
  unfolding open_variant
  open_variant-Same p v =
      Runs-bind
        (λ x w.
          Same t d w
          × (file_path tools.parse_uuid p.album_id p.id (served_variant p v) p.mime_type ≡ ok x))
        (lift (file_path tools.parse_uuid p.album_id p.id (served_variant p v) p.mime_type)) _
        (Runs-lift _ (λ w h. h))
        λ x. Runs-given _ λ k.
          Runs-bind (λ u. Same t d) io _ (io-Same t d)
            λ u. record { run = λ w h. (h, (x, k, ap (read_file x) (sym h.1))) }

  answer_file-IsFile :
      (p : Photo) (v : Variant) (download : Bool) (cache : Text) (r : Result (Option Text))
      → Runs
          (λ w. Post (Knowing t d (Opened p v)) (Same t d) r w)
          (answer_file tools p (served_variant p v) download cache r)
          (λ s w. IsFile p v cache s)
          (Any t d)
  answer_file-IsFile p v download cache (err e) = Runs-fail internal_error (λ w h. tt)
  answer_file-IsFile p v download cache (ok none) =
      Runs-fail (answered 404 "file_missing") (λ w h. tt)
  answer_file-IsFile p v download cache (ok (some content)) =
      Runs-given (Opened p v (some content)) λ k.
        Runs-bind (λ r w. Post (Knowing t d (λ u. Unit {0})) (Same t d) r w) (attempt io) _
          (Runs-attempt _ (Runs_weaken (λ u w h. (h, tt)) (λ w h. h) (io-Same t d)))
          λ r.
            Runs-bind (Knowing t d (λ u. Unit {0})) _ _ (or_internal-Same t d (λ u. Unit {0}) r)
              λ u.
                Runs-return (served_file p (served_variant p v) download cache content) (λ w h.
                  record { path = k.0; names = k.1; read = k.2; sent = refl; cached = refl })

  pub serve_variant-IsFile :
      (p : Photo) (v : Variant) (download : Bool) (cache : Text)
      → Runs
          (Same t d)
          (serve_variant tools p v download cache)
          (λ s w. IsFile p v cache s)
          (Any t d)
  unfolding serve_variant
  serve_variant-IsFile p v download cache =
      Runs-bind (λ r w. Post (Knowing t d (Opened p v)) (Same t d) r w) _ _
        (Runs-attempt _ (open_variant-Same p v)) λ r. answer_file-IsFile p v download cache r

  module _ (codec : Codec) (now : ℕ) (cookie : Option Text) where
    -- Why a visitor is sent this file: he has access to the album, and the photo of it is ready.
    pub record IsVisible (slug photo_id : Text) (s : Served) : Type 0 where
      pub album : Album
      pub found : get_album_by_slug slug t ≡ ok album
      pub access : album_access codec now cookie album ≡ true
      pub photo : Photo
      pub there : get_photo album.id photo_id t ≡ ok photo
      pub ready : photo.variants_ready ≡ true
      pub variant : Variant
      pub file :
          IsFile photo variant
            (if is_empty album.password_hash
              then codes "public, max-age=86400"
              else codes "private, max-age=3600")
            s

    visible_album-Same :
        (slug : Text)
        → Runs
            (Same t d)
            (visible_album tools codec now cookie slug)
            (Knowing t d
              (λ a. (get_album_by_slug slug t ≡ ok a) × (album_access codec now cookie a ≡ true)))
            (Any t d)
    unfolding visible_album
    visible_album-Same slug =
        Runs-bind (λ r w. Post (Knowing t d (λ a. get_album_by_slug slug t ≡ ok a)) (Same t d) r w)
          _ _ (Runs-attempt _ (query-Same t d (get_album_by_slug slug)))
          λ r.
            Runs-bind (Knowing t d (λ a. get_album_by_slug slug t ≡ ok a)) _ _
              (found_or-Same t d (λ a. get_album_by_slug slug t ≡ ok a) 404 "album_not_found" r)
              λ a.
                Runs-if (album_access codec now cookie a) _ _
                  (λ e. Runs-return a (λ w h. (h.0, (h.1, e))))
                  (λ e. Runs-fail password_required (λ w h. tt))

    visible_photo-Same :
        (album_id photo_id : Text)
        → Runs
            (Same t d)
            (visible_photo tools codec now cookie album_id photo_id)
            (Knowing t d (λ p. (get_photo album_id photo_id t ≡ ok p) × (p.variants_ready ≡ true)))
            (Any t d)
    unfolding visible_photo
    visible_photo-Same album_id photo_id =
        Runs-bind
          (λ r w. Post (Knowing t d (λ p. get_photo album_id photo_id t ≡ ok p)) (Same t d) r w) _ _
          (Runs-attempt _ (query-Same t d (get_photo album_id photo_id)))
          λ r.
            Runs-bind (Knowing t d (λ p. get_photo album_id photo_id t ≡ ok p)) _ _
              (found_or-Same t d (λ p. get_photo album_id photo_id t ≡ ok p) 404 "photo_not_found"
                r)
              λ p.
                Runs-if p.variants_ready _ _ (λ e. Runs-return p (λ w h. (h.0, (h.1, e))))
                  (λ e. Runs-fail (answered 404 "photo_not_found") (λ w h. tt))

    photo_variant-IsVisible :
        (slug photo_id : Text) (download : Bool) (o : Option Variant)
        → Runs
            (Same t d)
            (photo_variant tools codec now cookie slug photo_id download o)
            (λ s w. IsVisible slug photo_id s)
            (Any t d)
    photo_variant-IsVisible slug photo_id download none =
        Runs-fail (answered 404 "variant_not_found") (λ w h. tt)
    photo_variant-IsVisible slug photo_id download (some v) =
        Runs-if _ _ _ (λ e. Runs-fail (answered 404 "photo_not_found") (λ w h. tt))
          λ e.
            Runs-bind
              (Knowing t d
                (λ a. (get_album_by_slug slug t ≡ ok a) × (album_access codec now cookie a ≡ true)))
              _ _ (visible_album-Same slug)
              λ a. Runs-given _ λ k.
                Runs-bind
                  (Knowing t d
                    (λ p. (get_photo a.id photo_id t ≡ ok p) × (p.variants_ready ≡ true)))
                  _ _ (visible_photo-Same a.id photo_id)
                  λ p. Runs-given _ λ h.
                    Runs_weaken {Q' = λ s w. IsVisible slug photo_id s}
                      (λ s w f. record {
                        album = a;
                        found = k.0;
                        access = k.1;
                        photo = p;
                        there = h.0;
                        ready = h.1;
                        variant = v;
                        file =
                            subst (λ c. IsFile p v c s)
                              (if-protected a.password_hash (codes "private, max-age=3600")
                                (codes "public, max-age=86400"))
                              f;
                      })
                      (λ w h. h)
                      (serve_variant-IsFile p v download (photo_cache tools codec now cookie a))

    get_photo_variant-Runs :
        (slug photo_id variant : Text) (download : Bool)
        → Runs
            (Same t d)
            (get_photo_variant tools codec now cookie slug photo_id variant download)
            (λ s w. IsVisible slug photo_id s)
            (Any t d)
    unfolding get_photo_variant
    get_photo_variant-Runs slug photo_id variant download =
        Runs-if _ _ _ (λ e. Runs-fail (answered 404 "album_not_found") (λ w h. tt))
          (λ e. photo_variant-IsVisible slug photo_id download (parse_variant variant))

-- Whatever fails on the way, a visitor is sent a file of a photo only if he has access to its album
-- and the photo is ready; it is the file that serves a variant, and a shared cache may keep it only
-- if the album is public.
pub get_photo_variant-IsVisible :
    (tools : Tools) (codec : Codec) (now : ℕ) (cookie : Option Text) (slug photo_id variant : Text)
    (download : Bool) (w : World) (s : Served)
    → (get_photo_variant tools codec now cookie slug photo_id variant download w).0 ≡ ok s
    → IsVisible tools w.tables w.disk codec now cookie slug photo_id s
get_photo_variant-IsVisible tools codec now cookie slug photo_id variant download w s e =
    returned w.tables w.disk (IsVisible tools w.tables w.disk codec now cookie slug photo_id) _ s _
      e
      ((get_photo_variant-Runs tools w.tables w.disk codec now cookie slug photo_id variant
          download).run
        w (refl, refl))
