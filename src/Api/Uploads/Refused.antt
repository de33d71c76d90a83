-- ===== src/Api/Uploads/Refused.antt =====
-- A request to upload or replace a photo that readUpload cannot accept
-- (backend/internal/api/publish_photos.go).
use smugbox.Api.Uploads.{
  Broken, Part, file, field, fails, unread, unstaged, write_field, stage_part, read_field,
  read_parts, no_fields, read_upload, ingest_upload, post_photo, put_photo,
}
use smugbox.Api.{or_internal, found_or, internal_error}
use smugbox.Api.Albums.{Passwords, album_from_path}
use smugbox.Api.Visitor.Looked.{Same, io-Same}
use smugbox.Library.Ingest.{Upload, stage}
use smugbox.Library.Metadata.{Fields}
use smugbox.World.{World, io, query}
use smugbox.World.Invariant.{query-Keeps}
use smugbox.Media.{Tools}
use smugbox.Db.{Album, Tables}
use smugbox.Db.Albums.{get_album}
use smugbox.Db.Photos.{get_photo}
use smugbox.Storage.Disk.{StoredFile}
use smugbox.Exec.{Exec, Result, ok, err, attempt, answered, not_found, ◌>>=◌}
use smugbox.Exec.Runs.{Runs, Runs-bind, Runs-if, Runs-return, Runs-fail, Runs_of_Keeps, Post}
use smugbox.Common.{
  ◌∷◌, ℕ, Text, String, List, Option, ◌≡◌, ◌⊎◌, ◌<◌, Bool, [], not, some, none, ◌+◌, arith, is_some,
  inl, inr, true, false, any, ltb, length, suc, Bool-cases, refl,
}

-- A part that ends the reading of the body: it cannot be read, or it is a text of more than 64 KiB.
abbrev pub is_bad : Part → Bool
is_bad (fails b) = true
is_bad (file name (inl content)) = false
is_bad (file name (inr b)) = true
is_bad (field name none) = true
is_bad (field name (some v)) = ltb 65536 (length v)

unfoldable pub count_files : List Part → ℕ
count_files [] = 0
count_files ((file name body) ∷ ps) = suc (count_files ps)
count_files ((field name v) ∷ ps) = count_files ps
count_files ((fails b) ∷ ps) = count_files ps

abbrev held : Option Upload → ℕ
held none = 0
held (some up) = 1

abbrev Nothing : {A : Type 0} → A → World → Type 0
Nothing a w = ⊥

module _ (t : Tables) (d : List StoredFile) where
  stopped_early :
      {A B : Type 0} (m : Exec World A) (f : A → Exec World B)
      → Runs (Same t d) m Nothing (Same t d)
      → Runs (Same t d) (m >>= f) Nothing (Same t d)
  stopped_early m f r = Runs-bind Nothing m f r (λ a. record { run = λ w h. absurd h })

  or_internal-same :
      {A : Type 0} (r : Result A) → Runs (Same t d) (or_internal r) (λ a. Same t d) (Same t d)
  unfolding or_internal
  or_internal-same (ok a) = Runs-return a (λ w h. h)
  or_internal-same (err e) = Runs-fail internal_error (λ w h. h)

  found_or-same :
      {A : Type 0} (st : ℕ) (code : String) (r : Result A)
      → Runs (Same t d) (found_or st code r) (λ a. Same t d) (Same t d)
  unfolding found_or
  found_or-same st code (ok a) = Runs-return a (λ w h. h)
  found_or-same st code (err not_found) = Runs-fail (answered st code) (λ w h. h)
  found_or-same st code (err e) = Runs-fail internal_error (λ w h. h)

  tried :
      {A : Type 0} (m : Exec World A)
      → Runs (Same t d) m (λ a. Same t d) (Same t d)
      → Runs (Same t d) (attempt m) (λ r. Same t d) (Same t d)
  tried m r = record { run = λ w h. either (m w).0 (m w).1 (r.run w h) }
    where
      either :
          {A : Type 0} (r : Result A) (w : World) → Post (λ a. Same t d) (Same t d) r w → Same t d w
      either (ok a) w h = h
      either (err e) w h = h

  query-same :
      {A : Type 0} (f : Tables → Result A) → Runs (Same t d) (query f) (λ a. Same t d) (Same t d)
  query-same f = Runs_of_Keeps (query-Keeps (Same t d) (λ w fs h. h) f)

  module _ (tools : Tools) where
    stage_part-same :
        (name content : Text)
        → Runs (Same t d) (stage_part tools name (inl content)) (λ up. Same t d) (Same t d)
    unfolding stage
    stage_part-same name content =
        Runs-bind (λ r. Same t d) _ _
          (tried (stage tools content name) (
            Runs-bind (λ u. Same t d) _ _ (io-Same t d)
              λ u. Runs-bind (λ u. Same t d) _ _ (io-Same t d) λ v. Runs-return _ (λ w h. h)))
          λ r. or_internal-same r

    stage_part-broken :
        (name : Text) (b : Broken)
        → Runs (Same t d) (stage_part tools name (inr b)) Nothing (Same t d)
    stage_part-broken name b =
        Runs-bind (λ r. Same t d) _ _ (tried io (io-Same t d))
          λ r.
            Runs-bind (λ u. Same t d) _ _ (or_internal-same r)
              λ u. Runs-fail (unstaged b) (λ w h. h)

    read_parts-Refused :
        (ps : List Part) (fields : Fields) (up : Option Upload)
        → (any is_bad ps ≡ true) ⊎ (1 < count_files ps + held up)
        → Runs (Same t d) (read_parts tools ps fields up) Nothing (Same t d)
    unfolding read_parts count_files read_field
    read_parts-Refused [] fields none (inl e) = absurd (cc)
    read_parts-Refused [] fields (some up) (inl e) = absurd (cc)
    read_parts-Refused [] fields none (inr h) = absurd (omega (arith, h))
    read_parts-Refused [] fields (some up) (inr h) = absurd (omega (arith, h))
    read_parts-Refused ((fails b) ∷ ps) fields up h = Runs-fail (unread b) (λ w h. h)
    read_parts-Refused ((file name body) ∷ ps) fields (some up) h =
        Runs-fail (answered 400 "invalid_multipart") (λ w h. h)
    read_parts-Refused ((file name (inr b)) ∷ ps) fields none h =
        stopped_early _ _ (stage_part-broken name b)
    read_parts-Refused ((file name (inl content)) ∷ ps) fields none h =
        Runs-bind (λ up. Same t d) _ _ (stage_part-same name content)
          λ up. read_parts-Refused ps fields (some up) (later h)
      where
        later :
            (any is_bad ps ≡ true) ⊎ (1 < suc (count_files ps) + 0)
            → (any is_bad ps ≡ true) ⊎ (1 < count_files ps + 1)
        later (inl e) = inl e
        later (inr h) = inr (omega (arith, h))
    read_parts-Refused ((field name none) ∷ ps) fields up h =
        Runs-fail (answered 400 "invalid_field") (λ w h. h)
    read_parts-Refused ((field name (some v)) ∷ ps) fields up h =
        elim (Bool-cases (ltb 65536 (length v))) [
          | inl long ↦ rw long (Runs-fail (answered 400 "invalid_field") (λ w h. h))
          | inr short ↦
              rw short
                (read_parts-Refused ps (write_field name v fields) up (ground (arith, short, h)))
        ]

    module _ (passwords : Passwords) (ps : List Part)
        (bad : (any is_bad ps ≡ true) ⊎ (1 < count_files ps)) where
      ingest_upload-Refused :
          (now : ℕ) (fresh : Text) (a : Album) (i : Text)
          → Runs
              (Same t d)
              (ingest_upload tools passwords now fresh a i (some ps))
              Nothing
              (Same t d)
      unfolding ingest_upload read_upload
      ingest_upload-Refused now fresh a i =
          stopped_early _ _ (read_parts-Refused ps (no_fields tools) none (ground (arith, bad)))

      album-same :
          (id : Text)
          → Runs (Same t d) (album_from_path passwords tools id) (λ a. Same t d) (Same t d)
      unfolding album_from_path
      album-same id =
          Runs-if (not (is_some (tools.parse_uuid id))) _ _
            (λ e. Runs-fail (answered 404 "album_not_found") (λ w h. h))
            λ e.
              Runs-bind (λ r. Same t d) _ _
                (tried (query (get_album id)) (query-same (get_album id)))
                λ r. found_or-same 404 "album_not_found" r

      post_photo-Runs :
          (now : ℕ) (fresh id : Text)
          → Runs (Same t d) (post_photo tools passwords now fresh id (some ps)) Nothing (Same t d)
      unfolding post_photo
      post_photo-Runs now fresh id =
          Runs-bind (λ a. Same t d) _ _ (album-same id) λ a. ingest_upload-Refused now fresh a []

      put_photo-Runs :
          (now : ℕ) (fresh id i : Text)
          → Runs (Same t d) (put_photo tools passwords now fresh id i (some ps)) Nothing (Same t d)
      unfolding put_photo
      put_photo-Runs now fresh id i =
          Runs-bind (λ a. Same t d) _ _ (album-same id)
            λ a.
              Runs-if (not (is_some (tools.parse_uuid i))) _ _
                (λ e. Runs-fail (answered 404 "photo_not_found") (λ w h. h))
                λ e.
                  Runs-bind (λ r. Same t d) _ _
                    (tried (query (get_photo a.id i)) (query-same (get_photo a.id i)))
                    λ r.
                      Runs-bind (λ p. Same t d) _ _ (found_or-same 404 "photo_not_found" r)
                        λ p. ingest_upload-Refused now fresh a i

-- The request is answered with an error, and has changed no row and no file.
abbrev pub IsRefused : {A : Type 0} → World → Result A × World → Type 0
IsRefused w (ok a, w') = ⊥
IsRefused w (err e, w') = (w'.tables ≡ w.tables) × (w'.disk ≡ w.disk)

-- An upload or a replacement whose body has a part that cannot be read, a text field of more than 65536
-- bytes, or a second file, wherever among the parts, is answered with an error and changes no row and
-- no file, whatever else fails.
pub post_photo-IsRefused :
    (tools : Tools) (passwords : Passwords) (now : ℕ) (fresh id i : Text) (ps : List Part)
    (w : World)
    → (any is_bad ps ≡ true) ⊎ (1 < count_files ps)
    → IsRefused w (post_photo tools passwords now fresh id (some ps) w)
      × IsRefused w (put_photo tools passwords now fresh id i (some ps) w)
post_photo-IsRefused tools passwords now fresh id i ps w bad = (
  refused _ _
      ((post_photo-Runs w.tables w.disk tools passwords ps bad now fresh id).run w (refl, refl)),
  refused _ _
      ((put_photo-Runs w.tables w.disk tools passwords ps bad now fresh id i).run w (refl, refl)),
)
  where
    refused :
        {A : Type 0} (r : Result A) (v : World)
        → Post Nothing (Same w.tables w.disk) r v
        → IsRefused w (r, v)
    refused (ok a) v h = h
    refused (err e) v h = h
