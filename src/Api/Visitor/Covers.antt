-- ===== src/Api/Visitor/Covers.antt =====
-- What is shown of an album without its password, and what with it.
use smugbox.Api.Visitor.{
  Served, AlbumDetail, summary_from_path, album_cover, cover_variant, serve_variant,
}
use smugbox.Api.Visitor.Looked.{
  if-protected, Same, Any, Knowing, query-Same, or_internal-Same, found_or-Same, returned,
}
use smugbox.Api.Visitor.Visible.{IsFile, serve_variant-IsFile}
use smugbox.Api.Access.{album_access}
use smugbox.Auth.Session.{Codec}
use smugbox.World.{World, query}
use smugbox.Media.{Tools}
use smugbox.Db.{Album, Photo, Tables, one_row}
use smugbox.Db.Albums.{get_album_by_slug}
use smugbox.Db.Photos.{get_photo, is_photo}
use smugbox.Db.Listed.{
  AlbumSummary, summarize, get_album_summary_by_slug, list_ready_photos, is_ready_in, resolve_cover,
  photo_before,
}
use smugbox.Db.Listed.Ready.{resolve_cover-any}
use smugbox.Db.Consistent.{IsConsistent, PhotoApart}
use smugbox.Storage.Disk.{StoredFile}
use smugbox.Exec.{◌>>=◌, ok, attempt, answered, fail}
use smugbox.Exec.Runs.{
  Runs, Runs-bind, Runs-if, Runs-fail, Runs-attempt, Runs-given, Runs_weaken, Post,
}
use smugbox.Common.{
  ℕ, Text, List, Option, some, ◌≡◌, true, false, All, Pairwise, any, filter, find?, any-sort_by,
  text_eq, codes, is_empty, if◌then◌else◌, map, ◌∷◌, arith, Bool-cases, text_eq_iff, sym, ◌∙◌, inl,
  [], ap, inr, refl, subst,
}
use smugbox.Api.{or_internal}
use smugbox.Storage.{thumb, blur}

-- The summary of a slug is that of the album of the slug.
pub get_album_summary-album :
    (slug : Text) (t : Tables) (s : AlbumSummary)
    → get_album_summary_by_slug slug t ≡ ok s
    → (a : Album) × (get_album_by_slug slug t ≡ ok a) × (s ≡ summarize t a)
unfolding get_album_summary_by_slug get_album_by_slug
get_album_summary-album slug t s e = pick t.albums e
  where
    pick :
        (rows : List Album)
        → one_row (find? (λ s. text_eq s.album.slug slug) (map (summarize t) rows)) ≡ ok s
        → (a : Album) × (one_row (find? (λ a. text_eq a.slug slug) rows) ≡ ok a)
          × (s ≡ summarize t a)
    pick [] e = absurd (cc)
    pick (a ∷ rows) e = elim (Bool-cases (text_eq a.slug slug)) [
      | inl here ↦ (a, rw here refl, ground (arith, e, here))
      | inr other ↦ let (b, f, g) = pick rows (ground (arith, e, other)) in (b, rw other f, g)
    ]

no_other :
    (a i : Text) (q : Photo) (qs : List Photo)
    → q.id ≡ i
    → All (PhotoApart q) qs
    → any (λ r. text_eq r.id i) (filter (is_ready_in a) qs) ≡ false
no_other a i q [] e h = refl
no_other a i q (r ∷ qs) e h = ground (arith, no_other a i q qs e, h.0.ids, text_eq_iff r.id i)

-- Where ids are unique, the row of a photo that is listed is ready.
row_ready :
    (a i : Text) (p : Photo) (ps : List Photo)
    → Pairwise PhotoApart ps
    → find? (is_photo a i) ps ≡ some p
    → any (λ q. text_eq q.id i) (filter (is_ready_in a) ps) ≡ true
    → p.variants_ready ≡ true
row_ready a i p [] h f g = absurd (cc)
row_ready a i p (q ∷ qs) h f g = elim (Bool-cases (is_photo a i q)) [
  | inl here ↦
      let same : q ≡ p = ground (arith, f, here) in
      let this : q.id ≡ i = ground (arith, here, text_eq_iff q.id i) in
      ap (λ p. p.variants_ready) (sym same) ∙ ground (arith, g, no_other a i q qs this h.0)
  | inr other ↦
      row_ready a i p qs h.1 (ground (arith, f, other))
        (ground (arith, g, other, text_eq_iff q.album_id a))
]

module _ (tools : Tools) (codec : Codec) (now : ℕ) (cookie : Option Text) (t : Tables)
    (d : List StoredFile) where
  summary-Same :
      (slug : Text)
      → Runs
          (Same t d)
          (summary_from_path tools codec now cookie slug)
          (Knowing t d (λ s. get_album_summary_by_slug slug t ≡ ok s))
          (Any t d)
  unfolding summary_from_path
  summary-Same slug =
      Runs-if _ _ _ (λ e. Runs-fail (answered 404 "album_not_found") (λ w h. tt))
        (λ e.
          Runs-bind
            (λ r w.
              Post (Knowing t d (λ s. get_album_summary_by_slug slug t ≡ ok s)) (Same t d) r w)
            _ _ (Runs-attempt _ (query-Same t d (get_album_summary_by_slug slug)))
            λ r.
              found_or-Same t d (λ s. get_album_summary_by_slug slug t ≡ ok s) 404 "album_not_found"
                r)

  -- The cover is a file of a ready photo of the album: its thumbnail, or the blurred one if locked.
  pub record IsCover (slug : Text) (s : Served) : Type 0 where
    pub album : Album
    pub found : get_album_by_slug slug t ≡ ok album
    pub photo : Photo
    pub there : get_photo album.id (summarize t album).resolved_cover t ≡ ok photo
    pub ready : photo.variants_ready ≡ true
    pub file :
        IsFile tools t d photo
          (if is_empty album.password_hash then thumb else blur)
          (codes "public, max-age=300")
          s

  cover_ready :
      (a : Album) (p : Photo)
      → IsConsistent t
      → is_empty (summarize t a).resolved_cover ≡ false
      → get_photo a.id (summarize t a).resolved_cover t ≡ ok p
      → p.variants_ready ≡ true
  unfolding summarize get_photo list_ready_photos
  cover_ready a p c n e =
      let i = resolve_cover a.cover_photo_id (list_ready_photos a.id t) in
      row_ready a.id i p t.photos c.photos_apart (ground (arith, e)) (
        sym (any-sort_by photo_before (λ q. text_eq q.id i) (filter (is_ready_in a.id) t.photos))
        ∙ resolve_cover-any a.cover_photo_id (list_ready_photos a.id t)
            (λ z. absurd (ground (arith, n, z))))

  album_cover-Runs :
      (slug : Text)
      → IsConsistent t
      → Runs (Same t d) (album_cover tools codec now cookie slug) (λ s w. IsCover slug s) (Any t d)
  unfolding album_cover summarize
  album_cover-Runs slug c =
      Runs-bind (Knowing t d (λ s. get_album_summary_by_slug slug t ≡ ok s)) _ _ (summary-Same slug)
        λ s. Runs-given _ λ k. covered slug c s (get_album_summary-album slug t s k)
    where
      covered :
          (slug : Text)
          → IsConsistent t
          → (s : AlbumSummary)
          → (a : Album) × (get_album_by_slug slug t ≡ ok a) × (s ≡ summarize t a)
          → Runs
              (Same t d)
              (if is_empty s.resolved_cover
                then fail (answered 404 "no_cover")
                else (attempt (query (get_photo s.album.id s.resolved_cover)) >>= λ r.
                    or_internal r >>= λ p.
                    serve_variant tools p
                      (cover_variant tools codec now cookie s.album)
                      false
                      (codes "public, max-age=300")))
              (λ s w. IsCover slug s)
              (Any t d)
      covered slug c s (a, found, same) =
          Runs-if (is_empty s.resolved_cover) _ _
            (λ e. Runs-fail (answered 404 "no_cover") (λ w h. tt))
            λ e.
              Runs-bind
                (λ r w.
                  Post (Knowing t d (λ p. get_photo s.album.id s.resolved_cover t ≡ ok p))
                    (Same t d) r w)
                _ _ (Runs-attempt _ (query-Same t d (get_photo s.album.id s.resolved_cover)))
                λ r.
                  Runs-bind (Knowing t d (λ p. get_photo s.album.id s.resolved_cover t ≡ ok p)) _ _
                    (or_internal-Same t d (λ p. get_photo s.album.id s.resolved_cover t ≡ ok p) r)
                    λ p. Runs-given _ λ q.
                      let there : get_photo a.id (summarize t a).resolved_cover t ≡ ok p =
                        subst (λ s. get_photo s.album.id s.resolved_cover t ≡ ok p) same q in
                      Runs_weaken {Q' = λ s w. IsCover slug s}
                        (λ o w f. record {
                          album = a;
                          found = found;
                          photo = p;
                          there = there;
                          ready =
                              cover_ready a p c
                                (subst (λ s. is_empty s.resolved_cover ≡ false) same e) there;
                          file =
                              subst (λ v. IsFile tools t d p v (codes "public, max-age=300") o)
                                (ap (λ s. cover_variant tools codec now cookie s.album) same
                                  ∙ if-protected a.password_hash blur thumb)
                                f;
                        })
                        (λ w h. h)
                        (serve_variant-IsFile tools t d p
                          (cover_variant tools codec now cookie s.album) false
                          (codes "public, max-age=300"))

  -- The page shows the ready photos of the album to those who have access to it.
  pub record IsPage (slug : Text) (o : AlbumDetail) : Type 0 where
    pub album : Album
    pub found : get_album_by_slug slug t ≡ ok album
    pub access : album_access codec now cookie album ≡ true
    pub summary : o.summary ≡ summarize t album
    pub photos : o.photos ≡ list_ready_photos album.id t
    pub ready : All (λ p. is_ready_in album.id p ≡ true) o.photos

-- From consistent tables, and whatever fails, the cover that is sent is a file of a ready photo, the one
-- that the summary names: its thumbnail if the album is public, and no more than the blurred
-- placeholder if it has a password.
pub album_cover-IsCover :
    (tools : Tools) (codec : Codec) (now : ℕ) (cookie : Option Text) (slug : Text) (w : World)
    (s : Served)
    → IsConsistent w.tables
    → (album_cover tools codec now cookie slug w).0 ≡ ok s
    → IsCover tools codec now cookie w.tables w.disk slug s
album_cover-IsCover tools codec now cookie slug w s c e =
    returned w.tables w.disk (IsCover tools codec now cookie w.tables w.disk slug) _ s _ e
      ((album_cover-Runs tools codec now cookie w.tables w.disk slug c).run w (refl, refl))
