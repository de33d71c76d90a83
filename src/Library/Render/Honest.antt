-- ===== src/Library/Render/Honest.antt =====
-- Render never claims success for a photo that it leaves pending.
use smugbox.Library.Render.Total.{get_photo-hit}
use smugbox.Library.Render.Marked.{marked}
use smugbox.Library.Render.Kept.{Keeps-commit_all}
use smugbox.Library.Render.{
  StagedVariant, photo_gone, gone, give_up, or_give_up, render_source, read_original, poster_of,
  resized, add_variant, go_on, render_all, drop_large, mark, finish, publish, render_found,
  render_pending, render_row, render,
}
use smugbox.Library.Renditions.{Rendition, renditions, needed, is_video, has_large}
use smugbox.World.{World, io, query}
use smugbox.World.Invariant.{Tabled, Keeps-io, Keeps-remove_variant}
use smugbox.Exec.{Exec, Result, ok, err, internal, attempt, lift}
use smugbox.Exec.Keeps.{Keeps, Keeps-if, Keeps-return, Keeps-lift, Keeps-gets}
use smugbox.Exec.Runs.{
  Runs, Runs-bind, Runs-if, Runs-return, Runs-fail, Runs_before, Runs_weaken, Runs_of_Keeps, Post,
}
use smugbox.Db.{Photo, Tables}
use smugbox.Db.Photos.{get_photo, mark_variants_ready}
use smugbox.Storage.{FilePath, original, large, file_path}
use smugbox.Media.{Tools}
use smugbox.Common.{
  List, Text, ◌≡◌, ◌⊎◌, false, Option, ◌&&◌, Bool, none, is_some, not, inl, arith, true, inr, some,
  refl, ◌∷◌, ap, ◌∙◌, [], subst, sym,
}

abbrev Any : World → Type 0
Any w = Unit {0}

module _ (t : Tables) where
  abbrev At : World → Type 0
  At = Tabled (λ x. x ≡ t)

  -- An action that leaves the tables.
  stays : {A : Type 0} {m : Exec World A} → Keeps At m → Runs At m (λ a. At) Any
  stays k = Runs_weaken (λ a w h. h) (λ w h. tt) (Runs_of_Keeps k)

  module _ {A : Type 0} (f : Tables → Result A) (a : A) (e : f t ≡ ok a) where
    Answer : Result A → World → Type 0
    Answer r w = At w × ((r ≡ ok a) ⊎ (r ≡ err internal))

    struck :
        (fs : List Bool) (w : World)
        → At w
        → Answer (query f (record w { faults = fs })).0 (query f (record w { faults = fs })).1
    unfolding query io Answer
    struck [] w h = (h, inl (ap f h ∙ e))
    struck (true ∷ fs) w h = (h, inr refl)
    struck (false ∷ fs) w h = (h, inl (ap f h ∙ e))

    query-answer : Runs At (attempt (query f)) (λ r w. At w × ((r ≡ ok a) ⊎ (r ≡ err internal))) Any
    unfolding Answer
    query-answer = record { run = λ w h. struck w.faults w h }

  module _ (tools : Tools) (p : Photo) (there : get_photo p.album_id p.id t ≡ ok p) where
    photo_gone-false : Runs At (photo_gone tools p) (λ g w. At w × (g ≡ false)) Any
    unfolding photo_gone
    photo_gone-false =
        Runs-bind (λ r w. At w × ((r ≡ ok p) ⊎ (r ≡ err internal))) _ _
          (query-answer (get_photo p.album_id p.id) p there)
          λ r. Runs-return (gone tools r) (λ w h. (h.0, known r h.1))
      where
        known : (r : Result Photo) → (r ≡ ok p) ⊎ (r ≡ err internal) → gone tools r ≡ false
        known r (inl e) = rw e refl
        known r (inr e) = rw e refl

    give_up-never : {A : Type 0} → Runs At (give_up tools {A = A} p) (λ o w. ⊥) Any
    unfolding give_up
    give_up-never =
        Runs-bind (λ g w. At w × (g ≡ false)) _ _ photo_gone-false
          λ g.
            Runs-if g _ _ (λ e. Runs-return none (λ w h. absurd (ground (arith, e, h.1))))
              (λ e. Runs-fail internal (λ w h. tt))

    or_give_up-some :
        (o : Option Text) → Runs At (or_give_up tools p o) (λ c w. At w × (is_some c ≡ true)) Any
    or_give_up-some none = Runs_weaken (λ o w h. absurd h) (λ w h. h) give_up-never
    or_give_up-some (some c) = Runs-return (some c) (λ w h. (h, refl))

    render_source-some :
        (src : FilePath)
        → Runs At
            (render_source tools p src)
            (λ o w. At w × ((is_video p && not (is_some o)) ≡ false))
            Any
    unfolding render_source
    render_source-some src =
        Runs-if (is_video p) _ _
          (λ e.
            Runs-bind (λ u. At) _ _ (stays (Keeps-io (λ x. x ≡ t)))
              λ u.
                Runs-bind (λ u. At) _ _ (stays (Keeps-io (λ x. x ≡ t)))
                  λ u.
                    Runs-bind (λ c. At) (read_original tools src) _ (stays (Keeps-gets _))
                      λ c.
                        Runs_weaken (λ o w h. (h.0, ground (arith, h.1))) (λ w h. h)
                          (or_give_up-some (poster_of tools p c)))
          (λ e.
            Runs-bind (λ c. At) (read_original tools src) _ (stays (Keeps-gets _))
              λ c. Runs-return c (λ w h. (h, ground (arith, e))))

    go_on-some :
        (r : Rendition) (c : Option Text) (more : Exec World (Option (List StagedVariant)))
        → Runs At more (λ out w. At w × (is_some out ≡ true)) Any
        → Runs
            (λ w. At w × (is_some c ≡ true))
            (go_on tools r c more)
            (λ out w. At w × (is_some out ≡ true))
            Any
    go_on-some r none more h = record { run = λ w k. absurd (ground (arith, k.1)) }
    go_on-some r (some c) more h =
        Runs_before (λ w k. k.0)
          (Runs-bind (λ out w. At w × (is_some out ≡ true)) more _ h
            λ out. Runs-return (add_variant tools r c out) (λ w k. (k.0, added out k.1)))
      where
        added :
            (out : Option (List StagedVariant))
            → is_some out ≡ true
            → is_some (add_variant tools r c out) ≡ true
        added none e = e
        added (some ss) e = refl

    render_all-some :
        (source : Option Text) (rs : List Rendition)
        → Runs At (render_all tools p source rs) (λ out w. At w × (is_some out ≡ true)) Any
    unfolding render_all
    render_all-some source [] = Runs-return (some []) (λ w h. (h, refl))
    render_all-some source (r ∷ rs) =
        Runs-if (needed p r) _ _
          (λ e.
            Runs-bind (λ u. At) io _ (stays (Keeps-io (λ x. x ≡ t)))
              λ u.
                Runs-bind (λ c w. At w × (is_some c ≡ true)) _ _
                  (or_give_up-some (resized tools source r))
                  λ c. go_on-some r c (render_all tools p source rs) (render_all-some source rs))
          (λ e. render_all-some source rs)

    publish-marked :
        (out : Option (List StagedVariant))
        → is_some out ≡ true
        → Runs At (publish tools p out) (λ u w. w.tables ≡ marked tools p t) Any
    unfolding publish
    publish-marked none e = absurd (cc)
    publish-marked (some ss) e =
        Runs-bind (λ u. At) _ _ (stays (Keeps-commit_all tools (λ x. x ≡ t) p ss))
          λ u.
            Runs-bind (λ u. At) (drop_large tools p) _
              (stays (
                Keeps-if (has_large p) _ _ (λ e. Keeps-return tt)
                  (λ e. Keeps-remove_variant (λ x. x ≡ t) tools p.album_id p.id large p.mime_type)))
              λ u.
                Runs-bind (λ u. At) io _ (stays (Keeps-io (λ x. x ≡ t)))
                  λ u.
                    Runs-bind (λ hit w. (w.tables ≡ marked tools p t) × (hit ≡ true)) (mark tools p)
                      (finish tools p)
                      (record {
                        run = λ w h. (
                          ap (marked tools p) h,
                          ap (λ x. (mark_variants_ready p.album_id p.id p.content_hash x).0) h
                              ∙ get_photo-hit p.album_id p.id t p there,
                        );
                      })
                      λ hit. finished hit
      where
        finished :
            (hit : Bool)
            → Runs
                (λ w. (w.tables ≡ marked tools p t) × (hit ≡ true))
                (finish tools p hit)
                (λ u w. w.tables ≡ marked tools p t)
                Any
        finished true = Runs-return tt (λ w h. h.0)
        finished false = record { run = λ w h. absurd (ground (arith, h.1)) }

    render_found-marked :
        (source : Option Text)
        → (is_video p && not (is_some source)) ≡ false
        → Runs At (render_found tools p source) (λ u w. w.tables ≡ marked tools p t) Any
    render_found-marked source f =
        Runs-if (is_video p && not (is_some source)) _ _ (λ e. absurd (ground (arith, e, f)))
          (λ e.
            Runs-bind (λ out w. At w × (is_some out ≡ true)) _ _ (render_all-some source renditions)
              λ out. record { run = λ w h. (publish-marked out h.1).run w h.0 })

    render_pending-marked :
        Runs At (render_pending tools p) (λ u w. w.tables ≡ marked tools p t) Any
    unfolding render_pending
    render_pending-marked =
        Runs-bind (λ q. At) (lift (file_path tools.parse_uuid p.album_id p.id original p.mime_type))
          _ (stays (Keeps-lift _))
          λ q.
            Runs-bind (λ o w. At w × ((is_video p && not (is_some o)) ≡ false)) _ _
              (render_source-some q)
              λ o. record { run = λ w h. (render_found-marked o h.1).run w h.0 }

    render_row-marked :
        (r : Result Photo)
        → p.variants_ready ≡ false
        → (r ≡ ok p) ⊎ (r ≡ err internal)
        → Runs At (render_row tools r) (λ u w. w.tables ≡ marked tools p t) Any
    render_row-marked r pending (inl e) =
        subst (λ x. Runs At (render_row tools x) (λ u w. w.tables ≡ marked tools p t) Any) (sym e)
          (Runs-if p.variants_ready _ _ (λ e. absurd (ground (arith, pending, e)))
            (λ e. render_pending-marked))
    render_row-marked r pending (inr e) =
        subst (λ x. Runs At (render_row tools x) (λ u w. w.tables ≡ marked tools p t) Any) (sym e)
          (Runs-fail internal (λ w h. tt))

    render-Runs :
        p.variants_ready ≡ false
        → Runs At (render tools p.album_id p.id) (λ u w. w.tables ≡ marked tools p t) Any
    unfolding render
    render-Runs pending =
        Runs-bind (λ r w. At w × ((r ≡ ok p) ⊎ (r ≡ err internal))) _ _
          (query-answer (get_photo p.album_id p.id) p there)
          λ r. record { run = λ w h. (render_row-marked r pending h.1).run w h.0 }

-- Whatever fails on the way, Render returns without an error for a photo that is pending only if it
-- has marked it ready.
pub render_ok-marked :
    (tools : Tools) (w : World) (p : Photo)
    → get_photo p.album_id p.id w.tables ≡ ok p
    → p.variants_ready ≡ false
    → (render tools p.album_id p.id w).0 ≡ ok tt
    → (render tools p.album_id p.id w).1.tables ≡ marked tools p w.tables
render_ok-marked tools w p there pending e =
    subst
      (λ r.
        Post (λ u v. v.tables ≡ marked tools p w.tables) Any r (render tools p.album_id p.id w).1)
      e ((render-Runs w.tables tools p there pending).run w refl)
