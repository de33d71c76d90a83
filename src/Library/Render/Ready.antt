-- ===== src/Library/Render/Ready.antt =====
-- Render as a whole: when a photo becomes ready.
use smugbox.Library.Render.Marked.{Outcome, publish-Outcome}
use smugbox.Library.Render.Served.{original_path, IsServed}
use smugbox.Library.Render.{render_found, render_pending, render_row, render, render_source}
use smugbox.Library.Render.Planned.{
  At, Planned, source_of, query-At, render_source-At, render_all-Planned,
}
use smugbox.Library.Render.Committed.{path-found}
use smugbox.Library.Renditions.{renditions, is_video}
use smugbox.World.{World, query}
use smugbox.World.Invariant.{query-found}
use smugbox.Exec.{Result, ok, err, attempt, ◌>>=◌, not_found}
use smugbox.Exec.Runs.{
  Runs, Runs-and, Runs-bind, Runs-if, Runs-return, Runs-fail, Runs-attempt, Runs_weaken,
  Runs_before, Runs_of_Keeps, Post,
}
use smugbox.Db.{Photo, Tables}
use smugbox.Db.Photos.{get_photo, mark_variants_ready}
use smugbox.Storage.{FilePath, original}
use smugbox.Storage.Disk.{StoredFile}
use smugbox.Media.{Tools}
use smugbox.Common.{
  List, Text, ◌≡◌, none, true, false, arith, ◌∙◌, not, Option, ◌⊎◌, subst, inl, refl, ◌&&◌, sym,
  inr, is_some,
}

module _ (tools : Tools) (p : Photo) where
  module _ (t : Tables) where
    render_found-Outcome :
        (d : List StoredFile) (o : Option Text)
        → (o ≡ source_of tools p (original_path tools p) d) ⊎ ((is_video p ≡ true) × (o ≡ none))
        → Runs (At t d) (render_found tools p o) (λ u. Outcome tools p t) (Outcome tools p t)
    render_found-Outcome d o e =
        Runs-if (is_video p && not (is_some o)) _ _ (λ h. Runs-return tt (λ w k. inl k.0))
          (λ h.
            Runs-bind (λ out w. At t d w × Planned tools p o renditions out) _ _
              (Runs_weaken (λ out w k. k) (λ w k. inl k.0)
                (render_all-Planned tools p t d o renditions))
              λ out. record {
                run = λ w k.
                    (publish-Outcome tools p t d out
                        (subst (λ x. Planned tools p x renditions out) (from h e) k.1)).run
                      w k.0;
              })
      where
        from :
            (is_video p && not (is_some o)) ≡ false
            → (o ≡ source_of tools p (original_path tools p) d) ⊎ ((is_video p ≡ true) × (o ≡ none))
            → o ≡ source_of tools p (original_path tools p) d
        from h (inl e) = e
        from h (inr (v, n)) = absurd (ground (arith, v, n, h))

    render_pending-Outcome :
        (d : List StoredFile)
        → Runs (At t d) (render_pending tools p) (λ u. Outcome tools p t) (Outcome tools p t)
    unfolding render_pending
    render_pending-Outcome d =
        Runs-bind (λ q w. At t d w × (q ≡ original_path tools p)) _ _
          (path-found tools p (At t d) (Outcome tools p t) original (λ w h. inl h.0))
          λ q. record { run = λ w h. (rendered q h.1).run w h.0 }
      where
        rendered :
            (q : FilePath)
            → q ≡ original_path tools p
            → Runs
                (At t d)
                (render_source tools p q >>= λ source. render_found tools p source)
                (λ u. Outcome tools p t)
                (Outcome tools p t)
        rendered q e =
            Runs-bind
              (λ o w. At t d w × ((o ≡ source_of tools p q d) ⊎ ((is_video p ≡ true) × (o ≡ none))))
              _ _ (Runs_weaken (λ o w h. h) (λ w h. inl h.0) (render_source-At tools p t d q))
              λ o. record {
                run = λ w h.
                    (render_found-Outcome d o (
                        subst
                          (λ x. (o ≡ source_of tools p x d) ⊎ ((is_video p ≡ true) × (o ≡ none))) e
                          h.1)).run
                      w h.0;
              }

    render_row-Outcome :
        (d : List StoredFile) (r : Result Photo)
        → ((q : Photo) → r ≡ ok q → q ≡ p)
        → Runs (At t d) (render_row tools r) (λ u. Outcome tools p t) (Outcome tools p t)
    render_row-Outcome d (err not_found) same = Runs-return tt (λ w h. inl h.0)
    render_row-Outcome d (err e) same = Runs-fail e (λ w h. inl h.0)
    render_row-Outcome d (ok q) same =
        Runs-if q.variants_ready _ _ (λ e. Runs-return tt (λ w h. inl h.0))
          (λ e.
            subst
              (λ x.
                Runs (At t d) (render_pending tools x) (λ u. Outcome tools p t) (Outcome tools p t))
              (sym (same q refl)) (render_pending-Outcome d))

-- Whatever fails on the way, Render leaves the tables as they are, or it marks the photo ready and
-- then each variant that the photo needs is on the disk, as it is rendered from the original there.
pub render-IsServed :
    (tools : Tools) (a i : Text) (w : World) (p : Photo)
    → get_photo a i w.tables ≡ ok p
    → ((render tools a i w).1.tables ≡ w.tables)
      ⊎ (((render tools a i w).1.tables
            ≡ (mark_variants_ready p.album_id p.id p.content_hash w.tables).1)
          × IsServed tools p (render tools a i w).1.disk)
unfolding render
render-IsServed tools a i w p found =
    outcome (render tools a i w).0 (render tools a i w).1 (whole.run w (refl, refl))
  where
    Looked : Result Photo → World → Type 0
    Looked r v = At w.tables w.disk v × ((q : Photo) → r ≡ ok q → q ≡ p)

    same :
        (q : Photo) (v : World)
        → v.tables ≡ w.tables
        → get_photo a i v.tables ≡ ok q
        → (x : Photo) → ok q ≡ ok x
        → x ≡ p
    same q v t e x o =
        let read : get_photo a i w.tables ≡ ok q = subst (λ t. get_photo a i t ≡ ok q) t e in
        let both : ok q ≡ ok p = sym read ∙ found in ground (arith, both, o)

    looked :
        (r : Result Photo) (v : World)
        → Post
            (λ q v.
              At w.tables w.disk v × ((v.tables ≡ w.tables) × (get_photo a i v.tables ≡ ok q)))
            (λ v. At w.tables w.disk v × (v.tables ≡ w.tables))
            r
            v
        → Looked r v
    looked (ok q) v h = (h.0, same q v h.1.0 h.1.1)
    looked (err x) v h = (h.0, λ q o. absurd (cc))

    lookup :
        Runs
          (At w.tables w.disk)
          (attempt (query (get_photo a i)))
          Looked
          (Outcome tools p w.tables)
    lookup =
        Runs_weaken looked (λ v h. h)
          (Runs-attempt _ (
            Runs-and (Runs_of_Keeps (query-At tools p w.tables w.disk (get_photo a i)))
              (Runs_before (λ v h. h.0) (query-found (λ t. t ≡ w.tables) (get_photo a i)))))

    whole :
        Runs
          (At w.tables w.disk)
          (render tools a i)
          (λ u. Outcome tools p w.tables)
          (Outcome tools p w.tables)
    whole =
        Runs-bind Looked (attempt (query (get_photo a i))) (render_row tools) lookup
          λ r. record { run = λ v h. (render_row-Outcome tools p w.tables w.disk r h.1).run v h.0 }

    outcome :
        (o : Result (Unit {0})) (v : World)
        → Post (λ u. Outcome tools p w.tables) (Outcome tools p w.tables) o v
        → Outcome tools p w.tables v
    outcome (ok u) v h = h
    outcome (err e) v h = h
