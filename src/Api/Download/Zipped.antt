-- ===== src/Api/Download/Zipped.antt =====
-- The entries of the zip of an album.
use smugbox.Api.Download.{
  max_concurrent_zips, download_album, Seen, times_seen, ZipEntry, zip_entries, with_entry,
  open_original, unique_zip_name,
}
use smugbox.Api.Download.Names.{IsLower, IsCounted}
use smugbox.Api.Download.Distinct.{IsFresh, unique_zip_name-IsFresh}
use smugbox.Exec.{answered, fail, Exec, ◌>>=◌, Result, ok, err, attempt}
use smugbox.Exec.Runs.{Runs, Runs-bind, Runs-return, Post, Runs_weaken, Runs-if, Runs-fail}
use smugbox.Api.{or_internal}
use smugbox.Api.Visitor.{visible_album}
use smugbox.Slug.{valid_slug}
use smugbox.Db.Listed.{list_ready_photos}
use smugbox.Auth.Session.{Codec}
use smugbox.World.{query, World}
use smugbox.Media.{Tools}
use smugbox.Db.{Album, Photo}
use smugbox.Common.{
  Text, List, Option, none, some, Pairwise, All, ◌∷◌, ◌≢◌, ◌≡◌, All-map, arith, ap, ℕ, [], subst,
  if◌then◌else◌, leb, not,
}

-- No tool that unpacks the zip writes one entry over another, also where it folds case.
abbrev pub NamesDiffer : (Text → Text) → List ZipEntry → Type 0
NamesDiffer lower es = Pairwise (λ x y. lower x.name ≢ lower y.name) es

module _ (lower : Text → Text) (law : IsLower lower) (tools : Tools) where
  record IsZip (seen : Seen) (es : List ZipEntry) : Type 0 where
    unseen : All (λ x. times_seen (lower x.name) seen ≡ 0) es
    differ : NamesDiffer lower es

  IsZip-cons :
      (seen : Seen) (r : Text × Seen) (content : Text) (es : List ZipEntry)
      → IsFresh lower law seen r
      → IsZip r.1 es
      → IsZip seen (record { name = r.0; content = content } ∷ es)
  IsZip-cons seen r content es f z = record {
    unseen = (f.new, All-map (λ x. f.kept (lower x.name)) es z.unseen);
    differ = (
      All-map (λ x e s. omega (arith, f.given, ap (λ k. times_seen k r.1) s, e)) es z.unseen,
      z.differ,
    );
  }

  abbrev Zips : Seen → Exec World (List ZipEntry) → Type 0
  Zips seen m = Runs (λ w. Unit {0}) m (λ es w. IsZip seen es) (λ w. Unit {0})

  with_entry-IsZip :
      (more : Seen → Exec World (List ZipEntry)) (seen : Seen) (p : Photo)
      (r : Result (Option Text))
      → IsCounted seen
      → ((s : Seen) → IsCounted s → Zips s (more s))
      → Zips seen (with_entry lower tools more seen p r)
  with_entry-IsZip more seen p (ok (some content)) c h =
      let named = unique_zip_name lower seen p.filename in
      let f = unique_zip_name-IsFresh lower law seen p.filename c in
      Runs-bind (λ es w. IsZip named.1 es) _ _ (h named.1 f.counted)
        λ es. Runs-return _ (λ w z. IsZip-cons seen named content es f z)
  with_entry-IsZip more seen p (ok none) c h = h seen c
  with_entry-IsZip more seen p (err e) c h = h seen c

  zip_entries-IsZip :
      (ps : List Photo) (seen : Seen) → IsCounted seen → Zips seen (zip_entries lower tools ps seen)
  unfolding zip_entries
  zip_entries-IsZip [] seen c = Runs-return [] (λ w h. record { unseen = tt; differ = tt })
  zip_entries-IsZip (p ∷ ps) seen c =
      Runs-bind (λ r w. Unit {0}) (attempt (open_original tools p)) _ (record { run = λ w h. tt })
        λ r. with_entry-IsZip (zip_entries lower tools ps) seen p r c (zip_entries-IsZip ps)

  module _ (codec : Codec) (now : ℕ) (cookie : Option Text) (running : ℕ) (slug : Text) where
    abbrev Answer : Exec World (List ZipEntry) → Type 0
    Answer m = Runs (λ w. Unit {0}) m (λ es w. NamesDiffer lower es) (λ w. Unit {0})

    nothing : {A : Type 0} (r : Result A) (w : World) → Post (λ a w. Unit {0}) (λ w. Unit {0}) r w
    nothing (ok a) w = tt
    nothing (err e) w = tt

    then-Answer :
        {A : Type 0} (m : Exec World A) (f : A → Exec World (List ZipEntry))
        → ((a : A) → Answer (f a))
        → Answer (m >>= f)
    then-Answer m f h =
        Runs-bind (λ a w. Unit {0}) m f (record { run = λ w u. nothing (m w).0 (m w).1 }) h

    zip_of : Album → Exec World (List ZipEntry)
    zip_of a =
        if leb max_concurrent_zips running then fail (answered 503 "too_many_downloads") else do
          r ← attempt (query (λ t. ok (list_ready_photos a.id t)))
          ps ← or_internal r
          zip_entries lower tools ps []

    zip_of-Answer : (a : Album) → Answer (zip_of a)
    unfolding zip_of
    zip_of-Answer a =
        Runs-if (leb max_concurrent_zips running) _ _
          (λ e. Runs-fail (answered 503 "too_many_downloads") (λ w h. h))
          λ e. then-Answer (attempt (query (λ t. ok (list_ready_photos a.id t)))) _ λ r.
            then-Answer (or_internal r) _
              λ ps. Runs_weaken (λ es w z. z.differ) (λ w h. h) (zip_entries-IsZip ps [] tt)

    download_album-Answer : Answer (download_album lower tools codec now cookie running slug)
    unfolding download_album zip_of
    download_album-Answer =
        Runs-if (not (valid_slug slug)) _ _
          (λ e. Runs-fail (answered 404 "album_not_found") (λ w h. h))
          λ e. then-Answer (visible_album tools codec now cookie slug) _ zip_of-Answer

-- Whatever fails on the way, the entries of the zip of an album have names that differ also when their
-- case is folded, if strings.ToLower is documented truly.
pub download_album-NamesDiffer :
    (lower : Text → Text) (law : IsLower lower) (tools : Tools) (codec : Codec) (now : ℕ)
    (cookie : Option Text) (running : ℕ) (slug : Text) (w : World) (es : List ZipEntry)
    → (download_album lower tools codec now cookie running slug w).0 ≡ ok es
    → NamesDiffer lower es
download_album-NamesDiffer lower law tools codec now cookie running slug w es e =
    let h = (download_album-Answer lower law tools codec now cookie running slug).run w tt in
    subst
      (λ r.
        Post (λ es w. NamesDiffer lower es) (λ w. Unit {0}) r
          (download_album lower tools codec now cookie running slug w).1)
      e h
