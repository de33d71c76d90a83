-- ===== src/Api/Uploads/Kept.antt =====
-- An upload keeps the tables consistent.
use smugbox.Api.Uploads.{
  Broken, Part, file, field, fails, unread, unstaged, write_field, stage_part, read_field,
  with_field, read_parts, no_fields, read_upload, ingest_answer, ingest_upload, post_photo,
  put_photo,
}
use smugbox.Api.{internal_error}
use smugbox.Api.Kept.{Keeps-or_internal, Keeps-found_or}
use smugbox.Api.Albums.{Passwords}
use smugbox.Api.Albums.Kept.{Keeps-album_from_path, Keeps-library_error}
use smugbox.Library.Ingest.{Upload, stage, ingest}
use smugbox.Library.Ingest.Kept.{ingest-IsConsistent}
use smugbox.Library.Metadata.{Fields}
use smugbox.World.{World, io, query}
use smugbox.World.Invariant.{Tabled, Keeps-io, Keeps-query}
use smugbox.Media.{Tools}
use smugbox.Db.{Album, Photo}
use smugbox.Db.Consistent.{IsConsistent}
use smugbox.Exec.{Exec, Result, ok, err, answered}
use smugbox.Exec.Keeps.{Keeps, Keeps-bind, Keeps-attempt, Keeps-if, Keeps-fail, Keeps-return}
use smugbox.Common.{ℕ, Text, List, Option, ◌∷◌, ◌⊎◌, some, none, Bool, [], not, inl, is_some, inr}
use smugbox.Db.Photos.{get_photo}

abbrev Sound : World → Type 0
Sound = Tabled IsConsistent

module _ (tools : Tools) where
  Keeps-stage_part : (name : Text) (body : Text ⊎ Broken) → Keeps Sound (stage_part tools name body)
  unfolding stage
  Keeps-stage_part name (inl content) =
      Keeps-bind _ _
        (Keeps-attempt (stage tools content name) (
          Keeps-bind _ _ (Keeps-io IsConsistent)
            λ u. Keeps-bind _ _ (Keeps-io IsConsistent) λ v. Keeps-return _))
        λ r. Keeps-or_internal IsConsistent r
  Keeps-stage_part name (inr b) =
      Keeps-bind _ _ (Keeps-attempt io (Keeps-io IsConsistent))
        λ r. Keeps-bind _ _ (Keeps-or_internal IsConsistent r) λ u. Keeps-fail (unstaged b)

  Keeps-with_field :
      (more : Text → Exec World (Fields × Option Upload)) (up : Option Upload) (o : Option Text)
      → ((v : Text) → Keeps Sound (more v))
      → Keeps Sound (with_field tools more up o)
  Keeps-with_field more up none k = Keeps-fail (answered 400 "invalid_field")
  Keeps-with_field more up (some v) k = k v

  Keeps-read_parts :
      (ps : List Part) (fields : Fields) (up : Option Upload)
      → Keeps Sound (read_parts tools ps fields up)
  unfolding read_parts
  Keeps-read_parts [] fields up = Keeps-return (fields, up)
  Keeps-read_parts ((fails b) ∷ rest) fields up = Keeps-fail (unread b)
  Keeps-read_parts ((file name body) ∷ rest) fields (some up) =
      Keeps-fail (answered 400 "invalid_multipart")
  Keeps-read_parts ((file name body) ∷ rest) fields none =
      Keeps-bind _ _ (Keeps-stage_part name body) λ up. Keeps-read_parts rest fields (some up)
  Keeps-read_parts ((field name value) ∷ rest) fields up =
      Keeps-with_field (λ v. read_parts tools rest (write_field name v fields) up) up
        (read_field tools value) (λ v. Keeps-read_parts rest (write_field name v fields) up)

  Keeps-read_upload : (body : Option (List Part)) → Keeps Sound (read_upload tools body)
  unfolding read_upload
  Keeps-read_upload none = Keeps-fail (answered 400 "invalid_multipart")
  Keeps-read_upload (some ps) = Keeps-read_parts ps (no_fields tools) none

  module _ (passwords : Passwords) where
    Keeps-ingest_answer :
        (r : Result (Photo × Bool)) → Keeps Sound (ingest_answer tools passwords r)
    Keeps-ingest_answer (ok (p, created)) = Keeps-return _
    Keeps-ingest_answer (err e) =
        Keeps-bind _ _ (Keeps-library_error passwords tools IsConsistent e)
          λ u. Keeps-fail internal_error

    Keeps-ingest_upload :
        (now : ℕ) (fresh : Text) (a : Album) (i : Text) (body : Option (List Part))
        → Keeps Sound (ingest_upload tools passwords now fresh a i body)
    unfolding ingest_upload
    Keeps-ingest_upload now fresh a i body = Keeps-bind _ _ (Keeps-read_upload body) λ r.
        Keeps-bind _ _
          (Keeps-attempt (ingest tools now fresh a.id i r.0 r.1)
            (record { run = λ w c. ingest-IsConsistent tools now fresh a.id i r.0 r.1 w c }))
          λ x. Keeps-ingest_answer x

    pub post_photo-IsConsistent :
        (now : ℕ) (fresh id : Text) (body : Option (List Part))
        → Keeps Sound (post_photo tools passwords now fresh id body)
    unfolding post_photo
    post_photo-IsConsistent now fresh id body =
        Keeps-bind _ _ (Keeps-album_from_path passwords tools IsConsistent id)
          λ a. Keeps-ingest_upload now fresh a [] body

    pub put_photo-IsConsistent :
        (now : ℕ) (fresh id i : Text) (body : Option (List Part))
        → Keeps Sound (put_photo tools passwords now fresh id i body)
    unfolding put_photo
    put_photo-IsConsistent now fresh id i body =
        Keeps-bind _ _ (Keeps-album_from_path passwords tools IsConsistent id) λ a.
          Keeps-if (not (is_some (tools.parse_uuid i))) _ _
            (λ e. Keeps-fail (answered 404 "photo_not_found"))
            λ e.
              Keeps-bind _ _ (Keeps-attempt (query (get_photo a.id i)) (Keeps-query IsConsistent _))
                λ r.
                  Keeps-bind _ _ (Keeps-found_or IsConsistent 404 "photo_not_found" r)
                    λ p. Keeps-ingest_upload now fresh a i body
