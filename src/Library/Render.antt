-- ===== src/Library/Render.antt =====
-- Render and Remove (backend/internal/library/render.go), each under the photo's lock. The staged
-- variants are committed in the order of the list; the source's map has no order.
pub mod Kept
pub mod Planned
pub mod Committed
pub mod Served
pub mod Marked
pub mod Ready
pub mod Calm
pub mod Total
pub mod Spared
pub mod Honest
use smugbox.Library.Renditions.{Rendition, has_large, is_video, renditions, needed}
use smugbox.Common.{
  Bool, Option, Text, bind, List, true, if◌then◌else◌, some, false, none, ◌∷◌, ◌&&◌, not, [],
  is_some,
}
use smugbox.Storage.{Variant, FilePath, large, file_path, original}
use smugbox.Media.{Tools}
use smugbox.World.{Staged, World, remove_variant, query, io, commit, remove_photo_dir, execute}
use smugbox.Exec.{
  Result, Exec, err, gets, return, fail, ◌>>=◌, attempt, ok, lift, client, ◌>>◌, internal,
  not_found,
}
use smugbox.Db.{Photo}
use smugbox.Db.Photos.{mark_variants_ready, get_photo, delete_photo}
use smugbox.Storage.Disk.{read_file}

-- A variant that has been rendered and not yet committed.
pub record StagedVariant : Type 0 where
  pub variant : Variant
  pub staged : Staged

module _ (tools : Tools) where
  abbrev pub gone : Result Photo → Bool
  gone (err not_found) = true
  gone r = false

  -- `photoGone`, where a failed lookup counts as not gone.
  unfoldable pub photo_gone : Photo → Exec World Bool
  photo_gone p = do r ← attempt (query (get_photo p.album_id p.id)); return (gone r)

  -- A file that cannot be rendered is an error, unless the photo was deleted meanwhile.
  unfoldable pub give_up : {A : Type 0} → Photo → Exec World (Option A)
  unfolding photo_gone
  give_up p = do g ← photo_gone p; if g then return none else fail internal

  abbrev pub read_original : FilePath → Exec World (Option Text)
  read_original p = gets (λ w. read_file p w.disk)

  abbrev pub poster_of : Photo → Option Text → Option Text
  poster_of p content = bind content (λ c. tools.poster c p.duration_ms)

  abbrev pub or_give_up : Photo → Option Text → Exec World (Option Text)
  or_give_up p none = give_up p
  or_give_up p (some c) = return (some c)

  -- What the variants are rendered from: the original, or the poster frame of a video.
  unfoldable pub render_source : Photo → FilePath → Exec World (Option Text)
  unfolding give_up
  render_source p src =
      if is_video p
      then (do io; io; content ← read_original src; or_give_up p (poster_of p content))
      else (do content ← read_original src; return content)

  abbrev pub resized : Option Text → Rendition → Option Text
  resized source r = bind source (λ c. tools.resize c r.long r.quality r.blur_sigma)

  abbrev pub add_variant :
      Rendition → Text → Option (List StagedVariant) → Option (List StagedVariant)
  add_variant r c none = none
  add_variant r c (some rest) =
      some
        (record { variant = r.variant; staged = record { content = c; committed = false } } ∷ rest)

  -- The rest of the loop, unless the photo is gone.
  abbrev pub go_on :
      Rendition
      → Option Text
      → Exec World (Option (List StagedVariant))
      → Exec World (Option (List StagedVariant))
  go_on r none more = return none
  go_on r (some c) more = do rest ← more; return (add_variant r c rest)

  -- The loop over the renditions; none means that the photo is gone.
  unfoldable pub render_all :
      Photo → Option Text → List Rendition → Exec World (Option (List StagedVariant))
  unfolding give_up has_large
  render_all p source [] = return (some [])
  render_all p source (r ∷ rs) =
      let more = render_all p source rs in
      let one = (do io; c ← or_give_up p (resized source r); go_on r c more) in
      if needed p r then one else more

  unfoldable pub commit_all : Photo → List StagedVariant → Exec World (Unit {0})
  commit_all p [] = return tt
  commit_all p (s ∷ rest) = do
    commit tools s.staged p.album_id p.id s.variant p.mime_type
    commit_all p rest

  -- A replacement may be smaller than the original before it.
  abbrev pub drop_large : Photo → Exec World (Unit {0})
  drop_large p =
      if has_large p then return tt else remove_variant tools p.album_id p.id large p.mime_type

  abbrev pub mark : Photo → World → Result Bool × World
  mark p w =
      let (hit, t) = mark_variants_ready p.album_id p.id p.content_hash w.tables in
      (ok hit, record w { tables = t })

  abbrev pub take_back : Photo → Bool → Exec World (Unit {0})
  take_back p g =
      if g then (do attempt (remove_photo_dir tools p.album_id p.id); return tt) else return tt

  abbrev pub finish : Photo → Bool → Exec World (Unit {0})
  finish p true = return tt
  finish p false = do g ← photo_gone p; take_back p g

  -- Commit the variants, mark the row, and take the files back if the row is gone.
  unfoldable pub publish : Photo → Option (List StagedVariant) → Exec World (Unit {0})
  unfolding commit_all photo_gone has_large
  publish p none = return tt
  publish p (some staged) = do commit_all p staged; drop_large p; io; hit ← mark p; finish p hit

  abbrev pub render_from : Photo → Option Text → Exec World (Unit {0})
  render_from p source = do staged ← render_all p source renditions; publish p staged

  abbrev pub render_found : Photo → Option Text → Exec World (Unit {0})
  render_found p source =
      if is_video p && not (is_some source) then return tt else render_from p source

  unfoldable pub render_pending : Photo → Exec World (Unit {0})
  unfolding render_source render_all publish
  render_pending p = do
    src ← lift (file_path tools.parse_uuid p.album_id p.id original p.mime_type)
    source ← render_source p src
    render_found p source

  abbrev pub render_row : Result Photo → Exec World (Unit {0})
  render_row (err not_found) = return tt
  render_row (err e) = fail e
  render_row (ok p) = if p.variants_ready then return tt else render_pending p

  -- A photo that is gone or already ready is left alone.
  unfoldable pub render : Text → Text → Exec World (Unit {0})
  unfolding render_pending
  render album_id photo_id = do r ← attempt (query (get_photo album_id photo_id)); render_row r

  abbrev pub remove_row : Text → Text → Result (Unit {0}) → Exec World (Unit {0})
  remove_row album_id photo_id (err not_found) = fail (client "photo_not_found")
  remove_row album_id photo_id (err e) = fail e
  remove_row album_id photo_id (ok u) = do
    attempt (remove_photo_dir tools album_id photo_id)
    return tt

  -- The row goes first; files that stay behind are left to gc.
  unfoldable pub remove : Text → Text → Exec World (Unit {0})
  remove album_id photo_id = do
    r ← attempt (execute (delete_photo album_id photo_id))
    remove_row album_id photo_id r
