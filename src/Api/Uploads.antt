-- ===== src/Api/Uploads.antt =====
-- uploadPhoto and replacePhoto with readUpload (backend/internal/api/publish_photos.go). The body is what
-- multipart.Reader makes of it: parts, and possibly an error in the end. The files in incoming/ are no
-- part of the world here, so the calls of Abort, which only remove one of those and whose errors the
-- source drops, have no step.
pub mod Kept
pub mod Refused
use smugbox.Api.{or_internal, found_or, internal_error}
use smugbox.Api.Albums.{Passwords, album_from_path, library_error}
use smugbox.Library.Ingest.{Upload, stage, ingest}
use smugbox.Library.Metadata.{Fields}
use smugbox.World.{World, io, query}
use smugbox.Media.{Tools}
use smugbox.Db.{Album, Photo}
use smugbox.Db.Photos.{get_photo}
use smugbox.Exec.{Exec, Result, Failure, ok, err, fail, return, attempt, answered, ◌>>=◌, ◌>>◌}
use smugbox.Common.{
  ◌∷◌, ℕ, Text, ◌⊎◌, Option, if◌then◌else◌, List, none, Bool, text_eq, [], not, some, inl, ◌-◌,
  codes, ◌+◌, ltb, is_some, length, inr,
}

abbrev pub max_field_len : ℕ
max_field_len = 65536

-- Why a read of the body fails: it is larger than the server takes, or anything else.
pub data Broken : Type 0 where
  too_large damaged : Broken

pub data Part : Type 0 where
  file : (name : Text) → Text ⊎ Broken → Part
  field : (name : Text) → Option Text → Part
  fails : Broken → Part

abbrev pub unread : Broken → Failure
unread too_large = answered 413 "file_too_large"
unread damaged = answered 400 "invalid_multipart"

abbrev pub unstaged : Broken → Failure
unstaged too_large = answered 413 "file_too_large"
unstaged damaged = internal_error

abbrev pub write_field : Text → Text → Fields → Fields
write_field name value fields key = if text_eq (codes key) name then some value else fields key

module _ (tools : Tools) where
  -- The call of `Stage` and what an error of it is answered with.
  abbrev pub stage_part : Text → Text ⊎ Broken → Exec World Upload
  stage_part name (inl content) = do r ← attempt (stage tools content name); or_internal r
  stage_part name (inr b) = do r ← attempt io; or_internal r; fail (unstaged b)

  -- `readField`
  unfoldable pub read_field : Option Text → Option Text
  read_field none = none
  read_field (some v) = if ltb max_field_len (length v) then none else some v

  abbrev pub with_field :
      (Text → Exec World (Fields × Option Upload))
      → Option Upload
      → Option Text
      → Exec World (Fields × Option Upload)
  with_field more up none = fail (answered 400 "invalid_field")
  with_field more up (some v) = more v

  -- The loop over the parts.
  unfoldable pub read_parts :
      List Part → Fields → Option Upload → Exec World (Fields × Option Upload)
  unfolding read_field or_internal
  read_parts [] fields up = return (fields, up)
  read_parts ((fails b) ∷ rest) fields up = fail (unread b)
  read_parts ((file name body) ∷ rest) fields (some up) = fail (answered 400 "invalid_multipart")
  read_parts ((file name body) ∷ rest) fields none = do
    up ← stage_part name body
    read_parts rest fields (some up)
  read_parts ((field name value) ∷ rest) fields up =
      with_field (λ v. read_parts rest (write_field name v fields) up) up (read_field value)

  abbrev pub no_fields : Fields
  no_fields key = none

  -- `readUpload`; there is no reader where the request is not multipart.
  unfoldable pub read_upload : Option (List Part) → Exec World (Fields × Option Upload)
  unfolding read_parts
  read_upload none = fail (answered 400 "invalid_multipart")
  read_upload (some parts) = read_parts parts no_fields none

  module _ (passwords : Passwords) where
    abbrev pub ingest_answer : Result (Photo × Bool) → Exec World (ℕ × Text)
    ingest_answer (ok (p, created)) = return (if created then 201 else 200, p.id)
    ingest_answer (err e) = library_error passwords tools e >>= λ u. fail internal_error

    -- `ingest`; the answer is the status and the photo's id.
    unfoldable pub ingest_upload :
        ℕ → Text → Album → Text → Option (List Part) → Exec World (ℕ × Text)
    unfolding read_upload library_error
    ingest_upload now fresh a photo_id body = do
      (fields, up) ← read_upload body
      r ← attempt (ingest tools now fresh a.id photo_id fields up)
      ingest_answer r

    -- `uploadPhoto`
    unfoldable pub post_photo : ℕ → Text → Text → Option (List Part) → Exec World (ℕ × Text)
    unfolding ingest_upload
    post_photo now fresh id body = do
      a ← album_from_path passwords tools id
      ingest_upload now fresh a [] body

    -- `replacePhoto`
    unfoldable pub put_photo : ℕ → Text → Text → Text → Option (List Part) → Exec World (ℕ × Text)
    unfolding ingest_upload found_or
    put_photo now fresh id photo_id body = do
      a ← album_from_path passwords tools id
      if not (is_some (tools.parse_uuid photo_id))
          then fail (answered 404 "photo_not_found")
          else do
            r ← attempt (query (get_photo a.id photo_id))
            found_or 404 "photo_not_found" r
            ingest_upload now fresh a photo_id body
