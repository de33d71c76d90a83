-- ===== src/Library/Render/Marked.antt =====
-- What Render leaves when it has its variants staged: it commits them, and marks the photo.
use smugbox.Library.Render.Served.{
  original_path, IsServed, renditions_apart, original_apart, remove-IsServed,
}
use smugbox.Library.Render.{StagedVariant, commit_all, drop_large, mark, finish, publish, resized}
use smugbox.Library.Render.Planned.{At, Plan, Planned, source_of}
use smugbox.Library.Render.Committed.{
  Reads, learn, path_of, name_of, commit_all-Reads, Known-learn, Plan-Fresh, Plan-Known, path-found,
}
use smugbox.Library.Render.Kept.{Keeps-finish}
use smugbox.Library.Renditions.{needed, renditions, has_large}
use smugbox.World.{World, io, strike, remove_variant}
use smugbox.Exec.Keeps.{Keeps}
use smugbox.Exec.Runs.{
  Runs, Runs-bind, Runs-if, Runs-return, Runs_weaken, Runs_before, Runs_of_Keeps,
}
use smugbox.Db.{Photo, Tables}
use smugbox.Db.Photos.{mark_variants_ready, is_photo, set_ready}
use smugbox.Storage.{FilePath, original, large}
use smugbox.Storage.Disk.{StoredFile, read_file, remove_file}
use smugbox.Media.{Tools}
use smugbox.Common.{
  List, All, Text, ◌≡◌, none, true, false, some, arith, ◌∙◌, ◌∷◌, [], text_eq, Option, ◌⊎◌, any,
  Bool, subst, inl, refl, ◌&&◌, sym, ap, inr, map, if◌then◌else◌,
}

module _ (tools : Tools) (p : Photo) where
  -- What Render leaves: the tables as they were, or the photo marked ready and served.
  abbrev pub marked : Tables → Tables
  marked t = (mark_variants_ready p.album_id p.id p.content_hash t).1

  abbrev pub Outcome : Tables → World → Type 0
  Outcome t w = (w.tables ≡ t) ⊎ ((w.tables ≡ marked t) × IsServed tools p w.disk)

  mark-miss :
      (t : Tables) → (mark_variants_ready p.album_id p.id p.content_hash t).0 ≡ false → marked t ≡ t
  unfolding mark_variants_ready
  mark-miss t h = ap (λ ps. record t { photos = ps }) (map-miss t.photos h)
    where
      map-miss :
          (ps : List Photo)
          → any (λ q. is_photo p.album_id p.id q && text_eq q.content_hash p.content_hash) ps
            ≡ false
          → map
              (λ q.
                if is_photo p.album_id p.id q && text_eq q.content_hash p.content_hash
                then set_ready true q
                else q)
              ps
            ≡ ps
      map-miss [] h = refl
      map-miss (q ∷ ps) h = ground (arith, h, map-miss ps)

  module _ (t : Tables) where
    -- The tables are untouched and the files complete.
    abbrev Complete : World → Type 0
    Complete w = (w.tables ≡ t) × IsServed tools p w.disk

    io-Complete : Keeps Complete io
    unfolding io
    io-Complete = record { run = λ w h. struck w.faults w h }
      where
        struck : (fs : List Bool) (w : World) → Complete w → Complete (strike fs w).1
        struck [] w h = h
        struck (true ∷ fs) w h = h
        struck (false ∷ fs) w h = h

    untouched : (w : World) → Complete w → w.tables ≡ t
    untouched w h = h.0

    drop_large-Complete : Runs Complete (drop_large tools p) (λ u. Complete) (λ w. w.tables ≡ t)
    unfolding remove_variant
    drop_large-Complete =
        Runs-if (has_large p) _ _ (λ e. Runs-return tt (λ w h. h))
          (λ e.
            Runs-bind (λ q w. Complete w × (q ≡ path_of tools p (name_of tools p large))) _ _
              (path-found tools p Complete (λ w. w.tables ≡ t) large untouched)
              λ q.
                Runs-bind (λ u w. Complete w × (q ≡ path_of tools p (name_of tools p large))) _ _
                  (pause q)
                  λ u. record {
                    run = λ w h. (
                      h.0.0,
                      subst (λ x. IsServed tools p (remove_file x w.disk)) (sym h.1)
                          (remove-IsServed tools p w.disk e h.0.1),
                    );
                  })
      where
        pause :
            (q : FilePath)
            → Runs
                (λ w. Complete w × (q ≡ path_of tools p (name_of tools p large)))
                io
                (λ u w. Complete w × (q ≡ path_of tools p (name_of tools p large)))
                (λ w. w.tables ≡ t)
        pause q = record {
          run = λ w h.
              (Runs_weaken (λ u v k. (k, h.1)) untouched (Runs_of_Keeps io-Complete)).run w h.0;
        }

    abbrev Marked : Bool → World → Type 0
    Marked true w = (w.tables ≡ marked t) × IsServed tools p w.disk
    Marked false w = w.tables ≡ t

    mark-Marked : Runs Complete (mark tools p) Marked (λ w. w.tables ≡ t)
    mark-Marked = record {
      run = λ w h. after (mark_variants_ready p.album_id p.id p.content_hash w.tables).0 w refl h;
    }
      where
        after :
            (hit : Bool) (w : World)
            → (mark_variants_ready p.album_id p.id p.content_hash w.tables).0 ≡ hit
            → Complete w
            → Marked hit (record w { tables = marked w.tables })
        after true w e h = (ap marked h.0, h.1)
        after false w e h = mark-miss w.tables e ∙ h.0

    finish-Outcome :
        (hit : Bool) → Runs (Marked hit) (finish tools p hit) (λ u. Outcome t) (Outcome t)
    finish-Outcome true = Runs-return tt (λ w h. inr h)
    finish-Outcome false =
        Runs_weaken (λ u w h. inl h) (λ w h. inl h)
          (Runs_of_Keeps (Keeps-finish tools (λ x. x ≡ t) p false))

    committed :
        (d : List StoredFile) (ss : List StagedVariant)
        → Plan tools p (source_of tools p (original_path tools p) d) renditions ss
        → Runs (At t d) (commit_all tools p ss) (λ u. Complete) (λ w. w.tables ≡ t)
    committed d ss plan =
        Runs_weaken complete (λ w h. h)
          (Runs_before (λ w h. (h.0, (ap (read_file (original_path tools p)) h.1, tt)))
            (commit_all-Reads tools p t known ss (
              Plan-Fresh tools p t source renditions ss known plan (renditions_apart tools p)
                (original_apart tools p (read_file (original_path tools p) d)))))
      where
        known : List (Text × Option Text)
        known = (name_of tools p original, read_file (original_path tools p) d) ∷ []

        source : Option Text
        source = source_of tools p (original_path tools p) d

        complete :
            (u : Unit {0}) (w : World) → Reads tools p t (learn tools p t known ss) w → Complete w
        complete u w h =
            let same : read_file (original_path tools p) w.disk
                ≡ read_file (original_path tools p) d =
              (Known-learn tools p t known ss w.disk h.1).0 in
            let from : source_of tools p (original_path tools p) w.disk ≡ source = rw same refl in
            (
              h.0,
              subst
                  (λ x.
                    All
                      (λ r.
                        needed p r ≡ true
                        → (c : Text) × (resized tools x r ≡ some c)
                          × (read_file (path_of tools p (name_of tools p r.variant)) w.disk
                              ≡ some c))
                      renditions)
                  (sym from) (Plan-Known tools p t source renditions ss known w.disk plan h.1),
            )

    pub publish-Outcome :
        (d : List StoredFile) (out : Option (List StagedVariant))
        → Planned tools p (source_of tools p (original_path tools p) d) renditions out
        → Runs (At t d) (publish tools p out) (λ u. Outcome t) (Outcome t)
    unfolding publish
    publish-Outcome d none plan = Runs-return tt (λ w h. inl h.0)
    publish-Outcome d (some ss) plan =
        Runs-bind (λ u. Complete) _ _
          (Runs_weaken (λ u w h. h) (λ w h. inl h) (committed d ss plan))
          λ u.
            Runs-bind (λ u. Complete) _ _
              (Runs_weaken (λ u w h. h) (λ w h. inl h) drop_large-Complete)
              λ u.
                Runs-bind (λ u. Complete) _ _
                  (Runs_weaken (λ u w h. h) (λ w h. inl h.0) (Runs_of_Keeps io-Complete))
                  λ u.
                    Runs-bind Marked _ _ (Runs_weaken (λ u w h. h) (λ w h. inl h) mark-Marked)
                      λ hit. finish-Outcome hit
