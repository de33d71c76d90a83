-- ===== src/Library/Render/Kept.antt =====
-- What Render and Remove leave true of the tables, whatever fails on the way.
use smugbox.Library.Renditions.{Rendition, has_large, is_video, renditions, needed}
use smugbox.Library.Render.{
  StagedVariant, gone, photo_gone, give_up, read_original, poster_of, or_give_up, render_source,
  resized, add_variant, go_on, render_all, commit_all, drop_large, mark, finish, publish,
  render_pending, render_row, render, remove_row, remove,
}
use smugbox.World.{World}
use smugbox.World.Invariant.{
  Tabled, Keeps-io, Keeps-query, Keeps-execute, Keeps-commit, Keeps-remove_photo_dir,
  Keeps-remove_variant,
}
use smugbox.Exec.{Exec, Result, ok, err, lift, client, not_found, internal}
use smugbox.Exec.Keeps.{
  Keeps, Keeps-return, Keeps-fail, Keeps-lift, Keeps-gets, Keeps-if, Keeps-bind, Keeps-attempt,
}
use smugbox.Db.{Photo, Tables}
use smugbox.Db.Photos.{get_photo, delete_photo}
use smugbox.Db.Consistent.{IsConsistent}
use smugbox.Db.Consistent.OfPhotos.{mark_variants_ready-IsConsistent, delete_photo-IsConsistent}
use smugbox.Storage.{FilePath, file_path, original, large}
use smugbox.Media.{Tools}
use smugbox.Common.{Option, List, Bool, ◌&&◌, Text, some, ◌∷◌, not, true, is_some, none, [], false}

module _ (tools : Tools) where
  module _ (P : Tables → Type 0) where
    Keeps-photo_gone : (p : Photo) → Keeps (Tabled P) (photo_gone tools p)
    unfolding photo_gone
    Keeps-photo_gone p =
        Keeps-bind _ _ (Keeps-attempt _ (Keeps-query P (get_photo p.album_id p.id)))
          λ r. Keeps-return (gone tools r)

    Keeps-give_up : {A : Type 0} (p : Photo) → Keeps (Tabled P) (give_up tools {A = A} p)
    unfolding give_up
    Keeps-give_up p =
        Keeps-bind _ _ (Keeps-photo_gone p)
          λ g. Keeps-if g _ _ (λ e. Keeps-return none) (λ e. Keeps-fail internal)

    Keeps-or_give_up : (p : Photo) (o : Option Text) → Keeps (Tabled P) (or_give_up tools p o)
    Keeps-or_give_up p none = Keeps-give_up p
    Keeps-or_give_up p (some c) = Keeps-return (some c)

    Keeps-render_source :
        (p : Photo) (src : FilePath) → Keeps (Tabled P) (render_source tools p src)
    unfolding render_source
    Keeps-render_source p src =
        Keeps-if (is_video p) _ _
          (λ e. Keeps-bind _ _ (Keeps-io P) λ u. Keeps-bind _ _ (Keeps-io P) λ u.
            Keeps-bind (read_original tools src) _ (Keeps-gets _)
              λ c. Keeps-or_give_up p (poster_of tools p c))
          (λ e. Keeps-bind (read_original tools src) _ (Keeps-gets _) λ c. Keeps-return c)

    Keeps-go_on :
        (r : Rendition) (o : Option Text) (more : Exec World (Option (List StagedVariant)))
        → Keeps (Tabled P) more
        → Keeps (Tabled P) (go_on tools r o more)
    Keeps-go_on r none more k = Keeps-return none
    Keeps-go_on r (some c) more k =
        Keeps-bind _ _ k λ rest. Keeps-return (add_variant tools r c rest)

    Keeps-render_all :
        (p : Photo) (source : Option Text) (rs : List Rendition)
        → Keeps (Tabled P) (render_all tools p source rs)
    unfolding render_all
    Keeps-render_all p source [] = Keeps-return (some [])
    Keeps-render_all p source (r ∷ rs) =
        Keeps-if (needed p r) _ _
          (λ e. Keeps-bind _ _ (Keeps-io P) λ u.
            Keeps-bind _ _ (Keeps-or_give_up p (resized tools source r))
              λ c. Keeps-go_on r c (render_all tools p source rs) (Keeps-render_all p source rs))
          (λ e. Keeps-render_all p source rs)

    pub Keeps-commit_all :
        (p : Photo) (staged : List StagedVariant) → Keeps (Tabled P) (commit_all tools p staged)
    unfolding commit_all
    Keeps-commit_all p [] = Keeps-return tt
    Keeps-commit_all p (s ∷ rest) =
        Keeps-bind _ _ (Keeps-commit P tools s.staged p.album_id p.id s.variant p.mime_type)
          λ st. Keeps-commit_all p rest

    pub Keeps-finish : (p : Photo) (hit : Bool) → Keeps (Tabled P) (finish tools p hit)
    Keeps-finish p true = Keeps-return tt
    Keeps-finish p false = Keeps-bind _ _ (Keeps-photo_gone p) λ g.
        Keeps-if g _ _
          (λ e.
            Keeps-bind _ _ (Keeps-attempt _ (Keeps-remove_photo_dir P tools p.album_id p.id))
              λ r. Keeps-return tt)
          (λ e. Keeps-return tt)

  Keeps-mark : (p : Photo) → Keeps (Tabled IsConsistent) (mark tools p)
  Keeps-mark p = record {
    run = λ w c. mark_variants_ready-IsConsistent p.album_id p.id p.content_hash w.tables c;
  }

  Keeps-publish :
      (p : Photo) (staged : Option (List StagedVariant))
      → Keeps (Tabled IsConsistent) (publish tools p staged)
  unfolding publish
  Keeps-publish p none = Keeps-return tt
  Keeps-publish p (some staged) = Keeps-bind _ _ (Keeps-commit_all IsConsistent p staged) λ u.
      Keeps-bind (drop_large tools p) _
        (Keeps-if (has_large p) _ _ (λ e. Keeps-return tt)
          (λ e. Keeps-remove_variant IsConsistent tools p.album_id p.id large p.mime_type))
        λ u.
          Keeps-bind _ _ (Keeps-io IsConsistent)
            λ u. Keeps-bind _ _ (Keeps-mark p) λ hit. Keeps-finish IsConsistent p hit

  Keeps-render_pending : (p : Photo) → Keeps (Tabled IsConsistent) (render_pending tools p)
  unfolding render_pending
  Keeps-render_pending p =
      Keeps-bind (lift (file_path tools.parse_uuid p.album_id p.id original p.mime_type)) _
        (Keeps-lift _)
        λ src. Keeps-bind _ _ (Keeps-render_source IsConsistent p src) λ source.
          Keeps-if (is_video p && not (is_some source)) _ _ (λ e. Keeps-return tt)
            (λ e.
              Keeps-bind _ _ (Keeps-render_all IsConsistent p source renditions)
                λ staged. Keeps-publish p staged)

  Keeps-render_row : (r : Result Photo) → Keeps (Tabled IsConsistent) (render_row tools r)
  Keeps-render_row (err not_found) = Keeps-return tt
  Keeps-render_row (err e) = Keeps-fail e
  Keeps-render_row (ok p) =
      Keeps-if p.variants_ready _ _ (λ e. Keeps-return tt) (λ e. Keeps-render_pending p)

  -- `Render` keeps the tables consistent, whatever fails on the way.
  pub render-IsConsistent :
      (a i : Text) (w : World) → IsConsistent w.tables → IsConsistent (render tools a i w).1.tables
  unfolding render
  render-IsConsistent a i w c =
      (Keeps-bind _ _ (Keeps-attempt _ (Keeps-query IsConsistent (get_photo a i)))
          λ r. Keeps-render_row r).run
        w c

  Keeps-remove_row :
      (a i : Text) (r : Result (Unit {0})) → Keeps (Tabled IsConsistent) (remove_row tools a i r)
  Keeps-remove_row a i (ok u) =
      Keeps-bind _ _ (Keeps-attempt _ (Keeps-remove_photo_dir IsConsistent tools a i))
        λ r. Keeps-return tt
  Keeps-remove_row a i (err not_found) = Keeps-fail (client "photo_not_found")
  Keeps-remove_row a i (err e) = Keeps-fail e

  -- `Remove` keeps the tables consistent, whatever fails on the way.
  pub remove-IsConsistent :
      (a i : Text) (w : World) → IsConsistent w.tables → IsConsistent (remove tools a i w).1.tables
  unfolding remove
  remove-IsConsistent a i w c =
      (Keeps-bind _ _
          (Keeps-attempt _ (
            Keeps-execute IsConsistent (delete_photo a i)
              (λ t t' c e. delete_photo-IsConsistent a i t t' c e)))
          λ r. Keeps-remove_row a i r).run
        w c
