-- ===== src/Library/Ingest/Stored.antt =====
-- What the writing part of Ingest, `writePhotoRow`, does to the files of photos that are ready.
use smugbox.Library.Ingest.{
  Checked, save, hide, drop_stale, with_file, named, original_suffix, write_photo_row, undo,
}
use smugbox.Library.Ingest.Neutral.{IsSame, IsSame-refl, if-IsSame}
use smugbox.Library.Ingest.Untouched.{Untouched, Guarded, Guarded-Untouched, Same-Untouched}
use smugbox.Library.Ingest.Guarded.{
  commit-Guarded, remove_variant-Guarded, save-Guarded, hide-Guarded,
}
use smugbox.Library.Metadata.{Fields}
use smugbox.World.Invariant.{execute-Runs}
use smugbox.World.{World, execute}
use smugbox.Exec.{Result, ok, err}
use smugbox.Exec.Keeps.{Keeps, Keeps-return, Keeps-if, Keeps-bind, Keeps-attempt, Keeps-fail}
use smugbox.Exec.Runs.{Runs, Runs-bind, Runs-return, Runs_weaken, Runs_of_Keeps, Post}
use smugbox.Db.{Photo}
use smugbox.Db.Photos.{update_photo}
use smugbox.Storage.{original}
use smugbox.Storage.Disk.{StoredFile}
use smugbox.Media.{Tools}
use smugbox.Common.{is_empty, List, refl, ◌++◌, ◌≡◌, Bool, false, true, none, some, ◌∙◌}

pub with_file-IsSame : (fields : Fields) (c : Checked) (p : Photo) → IsSame p (with_file fields c p)
unfolding with_file
with_file-IsSame fields c p =
    if-IsSame _ p _ _ (record { id = refl; album = refl; ready = refl })
      (record { id = refl; album = refl; ready = refl })

named-IsSame : (p : Photo) → IsSame p (named p)
unfolding named
named-IsSame p =
    if-IsSame (is_empty p.filename) p (record p { filename = p.id ++ original_suffix p.mime_type })
      p (record { id = refl; album = refl; ready = refl }) (IsSame-refl p)

module _ (d : List StoredFile) where
  -- Nothing has been stored yet.
  abbrev pub Same : World → Type 0
  Same w = w.disk ≡ d

  -- Before a file is stored: the row is new and there is none like it, or it is still to be hidden.
  abbrev pub Start : Bool → Photo → World → Type 0
  Start true p w = Guarded p.album_id p.id d w
  Start false p w = w.disk ≡ d

module _ (tools : Tools) (d : List StoredFile) where
  hide-Start :
      (is_new : Bool) (p : Photo)
      → Runs (Start d is_new p) (hide tools is_new p) (λ u. Guarded p.album_id p.id d) (Untouched d)
  hide-Start true p = Runs-return tt (λ w h. h)
  hide-Start false p =
      Runs_weaken (λ u w h. h) (λ w h. Same-Untouched d w h) (hide-Guarded tools p.album_id p.id d)

  pub stored :
      (fields : Fields) (is_new : Bool) (p : Photo) (c : Checked)
      → (is_new ≡ true → p.variants_ready ≡ false)
      → Runs
          (Start d is_new (with_file fields c p))
          (write_photo_row tools fields is_new p (some c))
          (λ o. Untouched d)
          (Untouched d)
  unfolding write_photo_row
  stored fields is_new p c r =
      Runs-bind (λ u. Guarded q.album_id q.id d) _ _ (hide-Start is_new q)
        λ u.
          Runs-bind (λ s. Guarded q.album_id q.id d) _ _
            (Runs_weaken (λ s w h. h) (Guarded-Untouched q.album_id q.id d)
              (commit-Guarded tools q.album_id q.id d c.upload.staged original c.mime))
            λ s.
              Runs_weaken (λ o w h. Guarded-Untouched q.album_id q.id d w h)
                (Guarded-Untouched q.album_id q.id d)
                (Runs_of_Keeps (
                  Keeps-bind _ _
                    (save-Guarded tools q.album_id q.id d is_new (named q)
                      (λ e. (named-IsSame q).ready ∙ ((with_file-IsSame fields c p).ready ∙ r e))
                      (named-IsSame q).album (named-IsSame q).id)
                    λ u.
                      Keeps-bind (drop_stale tools is_new q p.mime_type c.mime) _
                        (Keeps-if _ _ _
                          (λ e.
                            Keeps-bind _ _
                              (Keeps-attempt _ (
                                remove_variant-Guarded tools q.album_id q.id d original
                                  p.mime_type))
                              λ r. Keeps-return tt)
                          (λ e. Keeps-return tt))
                        λ u. Keeps-return (named q, is_new)))
    where
      q : Photo
      q = with_file fields c p

  -- New metadata alone.
  pub edited :
      (fields : Fields) (p : Photo)
      → Runs (Same d) (write_photo_row tools fields false p none) (λ o. Untouched d) (Untouched d)
  unfolding write_photo_row save
  edited fields p =
      Runs_weaken (λ o w h. Same-Untouched d w h) (λ w h. Same-Untouched d w h)
        (Runs_of_Keeps (
          Keeps-bind _ _
            (Keeps-bind _ _ (Keeps-attempt _ (record { run = λ w h. kept w h })) λ o. left o)
            λ u. Keeps-return (named p, false)))
    where
      kept : (w : World) → Same d w → (Same d) (execute (update_photo (named p)) w).1
      kept w h =
          both (execute (update_photo (named p)) w).0 (execute (update_photo (named p)) w).1 (
            (execute-Runs (Same d) (Same d) (update_photo (named p)) (λ w fs h. h)
                (λ w t h e. h)).run
              w h)
        where
          both :
              (o : Result (Unit {0})) (v : World) → Post (λ u. (Same d)) (Same d) o v → (Same d) v
          both (ok u) v h = h
          both (err e) v h = h

      left : (o : Result (Unit {0})) → Keeps (Same d) (undo tools false (named p) o)
      left (ok u) = Keeps-return tt
      left (err e) = Keeps-fail e
