-- ===== src/Library/Ingest/Kept.antt =====
-- What Ingest leaves true of the tables, whatever fails on the way.
use smugbox.Library.Metadata.{Fields, parse_metadata, Edit, max_lr_uuid_len, field_or_empty}
use smugbox.Library.Ingest.{
  Upload, Checked, probe, probe_video, check_upload, check_optional, resolve_id, find_target, save,
  with_file, named, write_photo_row, write_target, ingest, undo, blame_image, decoded, hide,
  drop_stale, new_photo, check_kind, unknown_type, known_id, target, posted,
}
use smugbox.World.{World}
use smugbox.World.Invariant.{
  Blind, io-Keeps, query-Keeps, Tabled, Keeps-execute, Keeps-commit, Keeps-remove_photo_dir,
  Keeps-remove_variant,
}
use smugbox.Exec.{Result, ok, err, lift, return, fail, client, not_found, internal}
use smugbox.Exec.Keeps.{
  Keeps, Keeps-return, Keeps-fail, Keeps-lift, Keeps-if, Keeps-bind, Keeps-attempt, Keeps-option,
}
use smugbox.Db.{Photo, Tables}
use smugbox.Db.Photos.{
  insert_photo, update_photo, get_photo, get_photo_by_lr_uuid, mark_variants_pending,
}
use smugbox.Db.Consistent.{IsConsistent}
use smugbox.Db.Consistent.OfPhotos.{
  insert_photo-IsConsistent, update_photo-IsConsistent, mark_variants_pending-IsConsistent,
}
use smugbox.Media.{Tools, Info, Probed, sniff, probed, broken, invalid}
use smugbox.Common.{
  Text, Bool, ℕ, Option, if◌then◌else◌, some, ◌≡◌, false, none, true, trim_space, codes, not,
  is_empty, ◌&&◌, ◌||◌, ltb, length,
}
use smugbox.Storage.{original}

module _ (tools : Tools) where
  Keeps-undo :
      (is_new : Bool) (p : Photo) (r : Result (Unit {0}))
      → Keeps (Tabled IsConsistent) (undo tools is_new p r)
  Keeps-undo is_new p (ok u) = Keeps-return tt
  Keeps-undo is_new p (err e) =
      Keeps-if is_new _ _
        (λ h.
          Keeps-bind _ _
            (Keeps-attempt _ (Keeps-remove_photo_dir IsConsistent tools p.album_id p.id))
            λ r. Keeps-fail e)
        (λ h. Keeps-fail e)

  save_rows :
      (is_new : Bool) (p : Photo) (t t' : Tables)
      → IsConsistent t
      → (if is_new then insert_photo p else update_photo p) t ≡ ok t'
      → IsConsistent t'
  save_rows true p t t' c e = insert_photo-IsConsistent p t t' c e
  save_rows false p t t' c e = update_photo-IsConsistent p t t' c e

  Keeps-save : (is_new : Bool) (p : Photo) → Keeps (Tabled IsConsistent) (save tools is_new p)
  unfolding save
  Keeps-save is_new p =
      Keeps-bind _ _ (Keeps-attempt _ (Keeps-execute IsConsistent _ (save_rows is_new p)))
        λ r. Keeps-undo is_new p r

  Keeps-write_photo_row :
      (fields : Fields) (is_new : Bool) (p : Photo) (c : Option Checked)
      → Keeps (Tabled IsConsistent) (write_photo_row tools fields is_new p c)
  unfolding write_photo_row
  Keeps-write_photo_row fields is_new p none =
      Keeps-bind _ _ (Keeps-save is_new (named p)) λ u. Keeps-return (named p, is_new)
  Keeps-write_photo_row fields is_new p (some c) =
      Keeps-bind (hide tools is_new q) _
        (Keeps-if is_new _ _ (λ h. Keeps-return tt)
          (λ h.
            Keeps-execute IsConsistent (mark_variants_pending q.album_id q.id)
              (mark_variants_pending-IsConsistent q.album_id q.id)))
        λ u.
          Keeps-bind _ _
            (Keeps-commit IsConsistent tools c.upload.staged q.album_id q.id original c.mime)
            λ st. Keeps-bind _ _ (Keeps-save is_new (named q)) λ u.
              Keeps-bind (drop_stale tools is_new q p.mime_type c.mime) _
                (Keeps-if _ _ _
                  (λ h.
                    Keeps-bind _ _
                      (Keeps-attempt _ (
                        Keeps-remove_variant IsConsistent tools q.album_id q.id original
                          p.mime_type))
                      λ r. Keeps-return tt)
                  (λ h. Keeps-return tt))
                λ u. Keeps-return (named q, is_new)
    where
      q : Photo
      q = with_file fields c p

  Keeps-write_target :
      (fields : Fields) (now : ℕ) (a i lr : Text) (edit : Edit) (c : Option Checked)
      (found : Option Photo)
      → Keeps (Tabled IsConsistent) (write_target tools fields now a i lr edit c found)
  unfolding write_target
  Keeps-write_target fields now a i lr edit c (some p) =
      Keeps-write_photo_row fields false (edit (record p { updated_at = now })) c
  Keeps-write_target fields now a i lr edit none none = Keeps-fail (client "missing_file")
  Keeps-write_target fields now a i lr edit (some c) none =
      Keeps-write_photo_row fields true (edit (new_photo i a lr now)) (some c)

  module _ (P : World → Type 0) (blind : Blind P) where
    Keeps-blame : (r : Result Info) → Keeps P (blame_image tools r)
    Keeps-blame (ok info) = Keeps-return info
    Keeps-blame (err e) = Keeps-fail (client "invalid_image")

    Keeps-decoded : (o : Option Info) (content : Text) → Keeps P (decoded tools o content)
    Keeps-decoded none content = Keeps-fail (client "invalid_image")
    Keeps-decoded (some info) content =
        Keeps-option (tools.resize content 400 80 0) (fail (client "invalid_image"))
          (λ thumb. return info) (Keeps-fail (client "invalid_image")) (λ thumb. Keeps-return info)

    Keeps-probe : (content : Text) → Keeps P (probe tools content)
    unfolding probe
    Keeps-probe content =
        Keeps-bind _ _ (io-Keeps P blind)
          λ u. Keeps-bind _ _ (io-Keeps P blind) λ u. Keeps-decoded (tools.probe content) content

    Keeps-posted : (r : Probed) (content : Text) → Keeps P (posted tools r content)
    Keeps-posted broken content = Keeps-fail internal
    Keeps-posted invalid content = Keeps-fail (client "invalid_video")
    Keeps-posted (probed info) content = Keeps-bind _ _ (io-Keeps P blind) λ u.
        Keeps-bind _ _ (io-Keeps P blind) λ u. Keeps-bind _ _ (io-Keeps P blind) λ u.
          Keeps-option (tools.poster content info.duration_ms) (fail (client "invalid_video"))
            (λ poster. return info) (Keeps-fail (client "invalid_video"))
            (λ poster. Keeps-return info)

    Keeps-probe_video : (content : Text) → Keeps P (probe_video tools content)
    unfolding probe_video
    Keeps-probe_video content =
        Keeps-bind _ _ (io-Keeps P blind) λ u. Keeps-posted (tools.probe_video content) content

    Keeps-check_kind : (up : Upload) (kind : Option Text) → Keeps P (check_kind tools up kind)
    Keeps-check_kind up (some mime) = Keeps-bind _ _ (io-Keeps P blind) λ u.
        Keeps-bind _ _ (Keeps-probe_video up.staged.content)
          λ info. Keeps-return (record { upload = up; info = info; mime = mime })
    Keeps-check_kind up none = Keeps-bind _ _ (io-Keeps P blind) λ u.
        Keeps-bind _ _ (Keeps-attempt _ (Keeps-probe up.staged.content)) λ r.
          Keeps-bind _ _ (Keeps-blame r)
            λ info. Keeps-return (record { upload = up; info = info; mime = codes "image/jpeg" })

    Keeps-check_upload : (up : Upload) → Keeps P (check_upload tools up)
    unfolding check_upload
    Keeps-check_upload up =
        Keeps-if _ _ _ (λ e. Keeps-fail unknown_type) (λ e. Keeps-check_kind up (sniff up.head))

    pub Keeps-check_optional : (o : Option Upload) → Keeps P (check_optional tools o)
    Keeps-check_optional none = Keeps-return none
    Keeps-check_optional (some up) =
        Keeps-bind _ _ (Keeps-check_upload up) λ c. Keeps-return (some c)

    Keeps-known_id : (fresh : Text) (r : Result Photo) → Keeps P (known_id tools fresh r)
    Keeps-known_id fresh (ok p) = Keeps-return p.id
    Keeps-known_id fresh (err not_found) = Keeps-return fresh
    Keeps-known_id fresh (err e) = Keeps-fail e

    pub Keeps-resolve_id : (fresh a i lr : Text) → Keeps P (resolve_id tools fresh a i lr)
    unfolding resolve_id
    Keeps-resolve_id fresh a i lr =
        Keeps-if _ _ _ (λ e. Keeps-return i)
          (λ e.
            Keeps-bind _ _ (Keeps-attempt _ (query-Keeps P blind (get_photo_by_lr_uuid a lr)))
              λ r. Keeps-known_id fresh r)

    Keeps-target : (replace : Bool) (r : Result Photo) → Keeps P (target tools replace r)
    Keeps-target replace (ok p) = Keeps-return (some p)
    Keeps-target replace (err not_found) =
        Keeps-if replace _ _ (λ e. Keeps-fail (client "photo_not_found")) (λ e. Keeps-return none)
    Keeps-target replace (err e) = Keeps-fail e

    pub Keeps-find_target : (a i : Text) (replace : Bool) → Keeps P (find_target tools a i replace)
    unfolding find_target
    Keeps-find_target a i replace =
        Keeps-bind _ _ (Keeps-attempt _ (query-Keeps P blind (get_photo a i)))
          λ r. Keeps-target replace r

  -- `Ingest` keeps the tables consistent, whatever it is given and whatever fails on the way.
  pub ingest-IsConsistent :
      (now : ℕ) (fresh a i : Text) (fields : Fields) (up : Option Upload) (w : World)
      → IsConsistent w.tables
      → IsConsistent (ingest tools now fresh a i fields up w).1.tables
  unfolding ingest
  ingest-IsConsistent now fresh a i fields up w c =
      let lr = trim_space (field_or_empty (fields "lr_photo_uuid")) in
      (Keeps-if (not (not (is_empty i)) && (is_empty lr || ltb max_lr_uuid_len (length lr))) _ _
          (λ e. Keeps-fail (client "missing_lr_photo_uuid"))
          (λ e. Keeps-bind (lift (parse_metadata tools fields)) _ (Keeps-lift _) λ edit.
            Keeps-bind _ _ (Keeps-check_optional (Tabled IsConsistent) (λ w fs h. h) up) λ checked.
              Keeps-bind _ _ (Keeps-resolve_id (Tabled IsConsistent) (λ w fs h. h) fresh a i lr)
                λ id.
                  Keeps-bind _ _
                    (Keeps-find_target (Tabled IsConsistent) (λ w fs h. h) a id (not (is_empty i)))
                    λ found. Keeps-write_target fields now a id lr edit checked found)).run
        w c
