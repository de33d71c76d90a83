-- ===== src/Library/Ingest.antt =====
-- Stage and Ingest (backend/internal/library/ingest.go). The caller's clock and a new uuid are
-- arguments; the photo's lock makes the part behind the checks one step.
pub mod Kept
pub mod Neutral
pub mod Untouched
pub mod Guarded
pub mod Stored
pub mod Spared
use smugbox.Library.Metadata.{
  Fields, sanitize_filename, Edit, field_or_empty, max_lr_uuid_len, parse_metadata,
}
use smugbox.Common.{
  ℕ, Text, [], if◌then◌else◌, Option, Bool, false, is_empty, none, ◌||◌, codes, ◌++◌, ◌==◌, not,
  trim_space, some, is_some, ◌&&◌, true, length, text_eq, ltb, take,
}
use smugbox.World.{Staged, World, io, execute, commit, query, remove_photo_dir, remove_variant}
use smugbox.Media.{Info, Tools, Probed, sniff, probed, is_jpeg, broken, invalid}
use smugbox.Exec.{
  Failure, client, Exec, Result, fail, return, ok, ◌>>◌, ◌>>=◌, internal, attempt, err, lift,
  not_found,
}
use smugbox.Db.{Photo}
use smugbox.Storage.{original_ext, original, filename}
use smugbox.Db.Photos.{
  insert_photo, mark_variants_pending, get_photo_by_lr_uuid, get_photo, update_photo,
}

pub record Upload : Type 0 where
  pub staged : Staged
  pub size : ℕ
  pub hash : Text
  pub head : Text
  pub name : Text

-- What the checks of an upload found out.
pub record Checked : Type 0 where
  pub upload : Upload
  pub info : Info
  pub mime : Text

abbrev pub unknown_type : Failure
unknown_type = client "unsupported_media_type"

-- A new row, before the edits.
abbrev pub new_photo : Text → Text → Text → ℕ → Photo
new_photo id album_id lr now = record {
  id = id;
  album_id = album_id;
  lr_photo_uuid = lr;
  filename = [];
  mime_type = [];
  size_bytes = 0;
  width = 0;
  height = 0;
  title = [];
  caption = [];
  keywords = [];
  taken_at = [];
  exif = [];
  content_hash = [];
  duration_ms = 0;
  sort_order = 0;
  variants_ready = false;
  created_at = now;
  updated_at = now;
}

-- The upload's own name is used where the photo has none or the fields give none.
abbrev pub take_name : Fields → Text → Photo → Photo
take_name fields name p =
    if (is_empty p.filename || is_empty (field_or_empty (fields "filename"))) && not (is_empty name)
    then record p { filename = name }
    else p

unfoldable pub with_file : Fields → Checked → Photo → Photo
with_file fields c p = take_name fields (sanitize_filename c.upload.name) (record p {
  width = c.info.width;
  height = c.info.height;
  size_bytes = c.upload.size;
  content_hash = c.upload.hash;
  duration_ms = c.info.duration_ms;
  mime_type = c.mime;
})

-- path.Ext of the original's name.
abbrev pub original_suffix : Text → Text
original_suffix mime = elim (original_ext mime) [ none ↦ codes ".jpg" | some ext ↦ ext ]

unfoldable pub named : Photo → Photo
named p =
    if is_empty p.filename then record p { filename = p.id ++ original_suffix p.mime_type } else p

module _ (tools : Tools) where
  -- Stage copies the request's file into incoming/ and hashes it.
  unfoldable pub stage : Text → Text → Exec World Upload
  stage content name = do
    io
    io
    return (record {
      staged = record { content = content; committed = false };
      size = length content;
      hash = tools.sha256 content;
      head = take 12 content;
      name = name;
    })

  abbrev pub decoded : Option Info → Text → Exec World Info
  decoded none content = fail (client "invalid_image")
  decoded (some info) content = elim (tools.resize content 400 80 0) [
    | none ↦ fail (client "invalid_image")
    | some thumb ↦ return info
  ]

  -- `probe`: the dimensions, and a throwaway thumb.
  unfoldable pub probe : Text → Exec World Info
  probe content = do io; io; decoded (tools.probe content) content

  -- The third `io` is the run of ffmpeg: one that cannot be run is no fault of the client's.
  abbrev pub posted : Probed → Text → Exec World Info
  posted broken content = fail internal
  posted invalid content = fail (client "invalid_video")
  posted (probed info) content = do
    io
    io
    io
    elim (tools.poster content info.duration_ms) [
      | none ↦ fail (client "invalid_video")
      | some poster ↦ return info
    ]

  -- `probeVideo`: the dimensions and length, and a throwaway poster.
  unfoldable pub probe_video : Text → Exec World Info
  probe_video content = do io; posted (tools.probe_video content) content

  -- Whatever goes wrong with an image is the client's fault.
  abbrev pub blame_image : Result Info → Exec World Info
  blame_image (ok info) = return info
  blame_image (err e) = fail (client "invalid_image")

  abbrev pub check_kind : Upload → Option Text → Exec World Checked
  check_kind up (some mime) = do
    io
    info ← probe_video up.staged.content
    return (record { upload = up; info = info; mime = mime })
  check_kind up none = do
    io
    r ← attempt (probe up.staged.content)
    info ← blame_image r
    return (record { upload = up; info = info; mime = codes "image/jpeg" })

  unfoldable pub check_upload : Upload → Exec World Checked
  unfolding probe probe_video
  check_upload up =
      if up.size == 0 || (not (is_some (sniff up.head)) && not (is_jpeg up.head))
      then fail unknown_type
      else check_kind up (sniff up.head)

  abbrev pub check_optional : Option Upload → Exec World (Option Checked)
  check_optional none = return none
  check_optional (some up) = do c ← check_upload up; return (some c)

  abbrev pub known_id : Text → Result Photo → Exec World Text
  known_id fresh (ok p) = return p.id
  known_id fresh (err not_found) = return fresh
  known_id fresh (err e) = fail e

  -- The row that a POST is about: the one with this Lightroom uuid, or a new one.
  unfoldable pub resolve_id : Text → Text → Text → Text → Exec World Text
  resolve_id fresh album_id photo_id lr =
      if not (is_empty photo_id)
      then return photo_id
      else do r ← attempt (query (get_photo_by_lr_uuid album_id lr)); known_id fresh r

  abbrev pub target : Bool → Result Photo → Exec World (Option Photo)
  target replace (ok p) = return (some p)
  target replace (err not_found) = if replace then fail (client "photo_not_found") else return none
  target replace (err e) = fail e

  unfoldable pub find_target : Text → Text → Bool → Exec World (Option Photo)
  find_target album_id id replace = do r ← attempt (query (get_photo album_id id)); target replace r

  -- A row that could not be written; the files of a new photo are taken back.
  abbrev pub undo : Bool → Photo → Result (Unit {0}) → Exec World (Unit {0})
  undo is_new p (ok u) = return tt
  undo is_new p (err e) =
      if is_new then (do attempt (remove_photo_dir tools p.album_id p.id); fail e) else fail e

  unfoldable pub save : Bool → Photo → Exec World (Unit {0})
  save is_new p = do
    r ← attempt (execute (if is_new then insert_photo p else update_photo p))
    undo is_new p r

  -- Nothing of the file is stored before the photo is hidden.
  abbrev pub hide : Bool → Photo → Exec World (Unit {0})
  hide is_new p = if is_new then return tt else execute (mark_variants_pending p.album_id p.id)

  -- A replaced original of another kind has another name.
  abbrev pub drop_stale : Bool → Photo → Text → Text → Exec World (Unit {0})
  drop_stale is_new p stale mime =
      if not is_new && not (text_eq (filename original stale) (filename original mime))
      then (do attempt (remove_variant tools p.album_id p.id original stale); return tt)
      else return tt

  -- The original, the row and the flag; `p` is the row with the edits made.
  unfoldable pub write_photo_row :
      Fields → Bool → Photo → Option Checked → Exec World (Photo × Bool)
  unfolding save with_file named
  write_photo_row fields is_new p none = do save is_new (named p); return (named p, is_new)
  write_photo_row fields is_new p (some c) = do
    let q = with_file fields c p
    hide is_new q
    commit tools c.upload.staged q.album_id q.id original c.mime
    save is_new (named q)
    drop_stale is_new q p.mime_type c.mime
    return (named q, is_new)

  unfoldable pub write_target :
      Fields
      → ℕ
      → Text
      → Text
      → Text
      → Edit
      → Option Checked
      → Option Photo
      → Exec World (Photo × Bool)
  unfolding write_photo_row
  write_target fields now album_id id lr edit c (some p) =
      write_photo_row fields false (edit (record p { updated_at = now })) c
  write_target fields now album_id id lr edit none none = fail (client "missing_file")
  write_target fields now album_id id lr edit (some c) none =
      write_photo_row fields true (edit (new_photo id album_id lr now)) (some c)

  -- `photo_id` names the photo to replace; if it is empty the Lightroom uuid picks it.
  unfoldable pub ingest :
      ℕ → Text → Text → Text → Fields → Option Upload → Exec World (Photo × Bool)
  unfolding check_upload resolve_id find_target write_target
  ingest now fresh album_id photo_id fields up = do
    let lr = trim_space (field_or_empty (fields "lr_photo_uuid"))
    let replace = not (is_empty photo_id)
    if not replace && (is_empty lr || ltb max_lr_uuid_len (length lr))
        then fail (client "missing_lr_photo_uuid")
        else do
          edit ← lift (parse_metadata tools fields)
          checked ← check_optional up
          id ← resolve_id fresh album_id photo_id lr
          found ← find_target album_id id replace
          write_target fields now album_id id lr edit checked found
