-- ===== src/Library/Render/Planned.antt =====
-- What Render has staged before it commits: one file for each rendition that the photo needs.
use smugbox.Library.Renditions.{Rendition, is_video, needed}
use smugbox.Library.Render.{
  StagedVariant, gone, photo_gone, give_up, read_original, poster_of, or_give_up, render_source,
  resized, add_variant, go_on, render_all,
}
use smugbox.World.{World, io, query, strike}
use smugbox.Exec.{Exec, Result, return, internal}
use smugbox.Exec.Keeps.{Keeps, Keeps-return, Keeps-lift, Keeps-gets, Keeps-bind, Keeps-attempt}
use smugbox.Exec.Runs.{Runs, Runs-bind, Runs-if, Runs-return, Runs-fail, Runs_weaken, Runs_of_Keeps}
use smugbox.Db.{Photo, Tables}
use smugbox.Db.Photos.{get_photo}
use smugbox.Storage.{FilePath}
use smugbox.Storage.Disk.{StoredFile, read_file}
use smugbox.Media.{Tools}
use smugbox.Common.{
  List, Option, ◌≡◌, Text, Bool, if◌then◌else◌, [], ◌∷◌, none, ◌⊎◌, ap, some, false, inr, true,
  refl, inl, sym,
}

-- Nothing has been written yet.
abbrev pub At : Tables → List StoredFile → World → Type 0
At t d w = (w.tables ≡ t) × (w.disk ≡ d)

module _ (tools : Tools) (p : Photo) where
  -- What the variants are rendered from, as the disk has it.
  abbrev pub source_of : FilePath → List StoredFile → Option Text
  source_of src d = if is_video p then poster_of tools p (read_file src d) else read_file src d

  pub data Plan (source : Option Text) : List Rendition → List StagedVariant → Type 0 where
    all_done : Plan source [] []
    skip :
        {r : Rendition} {rs : List Rendition} {ss : List StagedVariant}
        → needed p r ≡ false
        → Plan source rs ss
        → Plan source (r ∷ rs) ss
    make :
        {r : Rendition} {rs : List Rendition} {ss : List StagedVariant} (c : Text)
        → resized tools source r ≡ some c
        → Plan source rs ss
        → Plan source (r ∷ rs) (
            record { variant = r.variant; staged = record { content = c; committed = false } } ∷ ss)

  abbrev pub Planned : Option Text → List Rendition → Option (List StagedVariant) → Type 0
  Planned source rs none = Unit {0}
  Planned source rs (some ss) = Plan source rs ss

  module _ (t : Tables) (d : List StoredFile) where
    strike-At : (fs : List Bool) (w : World) → At t d w → At t d (strike fs w).1
    strike-At [] w h = h
    strike-At (true ∷ fs) w h = h
    strike-At (false ∷ fs) w h = h

    pub io-At : Keeps (At t d) io
    unfolding io
    io-At = record { run = λ w h. strike-At w.faults w h }

    pub query-At : {A : Type 0} (f : Tables → Result A) → Keeps (At t d) (query f)
    unfolding query
    query-At f = Keeps-bind _ _ io-At λ u. Keeps-bind _ _ (Keeps-gets _) λ r. Keeps-lift r

    give_up-At :
        {A : Type 0}
        → Runs (At t d) (give_up tools {A = A} p) (λ o w. At t d w × (o ≡ none)) (At t d)
    unfolding give_up photo_gone
    give_up-At =
        Runs-bind (λ g. At t d) _ _
          (Runs_of_Keeps (
            Keeps-bind _ _ (Keeps-attempt _ (query-At (get_photo p.album_id p.id)))
              λ r. Keeps-return (gone tools r)))
          λ g.
            Runs-if g _ _ (λ e. Runs-return none (λ w h. (h, refl)))
              (λ e. Runs-fail internal (λ w h. h))

    or_give_up-At :
        (o : Option Text)
        → Runs
            (At t d)
            (or_give_up tools p o)
            (λ out w. At t d w × ((out ≡ o) ⊎ (out ≡ none)))
            (At t d)
    or_give_up-At none = Runs_weaken (λ out w h. (h.0, inr h.1)) (λ w h. h) give_up-At
    or_give_up-At (some c) = Runs-return (some c) (λ w h. (h, inl refl))

    original-At :
        (src : FilePath)
        → Runs (At t d) (read_original tools src) (λ c w. At t d w × (c ≡ read_file src d)) (At t d)
    original-At src = record { run = λ w h. (h, ap (read_file src) h.1) }

    pub render_source-At :
        (src : FilePath)
        → Runs
            (At t d)
            (render_source tools p src)
            (λ o w. At t d w × ((o ≡ source_of src d) ⊎ ((is_video p ≡ true) × (o ≡ none))))
            (At t d)
    unfolding render_source
    render_source-At src =
        Runs-if (is_video p) _ _
          (λ e.
            Runs-bind (λ u. At t d) _ _ (Runs_of_Keeps io-At)
              λ u.
                Runs-bind (λ u. At t d) _ _ (Runs_of_Keeps io-At)
                  λ u.
                    Runs-bind (λ c w. At t d w × (c ≡ read_file src d)) _ _ (original-At src)
                      λ c. record {
                        run = λ w h.
                            (Runs_weaken (posted e c h.1) (λ w h. h)
                                (or_give_up-At (poster_of tools p c))).run
                              w h.0;
                      })
          (λ e.
            Runs-bind (λ c w. At t d w × (c ≡ read_file src d)) _ _ (original-At src)
              λ c. Runs-return c (λ w h. (h.0, inl (rw e h.1))))
      where
        posted :
            is_video p ≡ true
            → (c : Option Text) → c ≡ read_file src d
            → (o : Option Text) (w : World) → At t d w × ((o ≡ poster_of tools p c) ⊎ (o ≡ none))
            → At t d w × ((o ≡ source_of src d) ⊎ ((is_video p ≡ true) × (o ≡ none)))
        posted e c q o w (h, inl m) = (h, inl (rw (e, ← q) m))
        posted e c q o w (h, inr m) = (h, inr (e, m))

    go_on-Planned :
        (source : Option Text) (r : Rendition) (rs : List Rendition) (o : Option Text)
        (more : Exec World (Option (List StagedVariant)))
        → (o ≡ resized tools source r) ⊎ (o ≡ none)
        → Runs (At t d) more (λ out w. At t d w × Planned source rs out) (At t d)
        → Runs
            (At t d)
            (go_on tools r o more)
            (λ out w. At t d w × Planned source (r ∷ rs) out)
            (At t d)
    go_on-Planned source r rs none more e k = Runs-return none (λ w h. (h, tt))
    go_on-Planned source r rs (some c) more (inr e) k = absurd (cc)
    go_on-Planned source r rs (some c) more (inl e) k =
        Runs-bind (λ out w. At t d w × Planned source rs out) _ _ k λ rest. added rest
      where
        added :
            (rest : Option (List StagedVariant))
            → Runs
                (λ w. At t d w × Planned source rs rest)
                (return (add_variant tools r c rest))
                (λ out w. At t d w × Planned source (r ∷ rs) out)
                (At t d)
        added none = Runs-return none (λ w h. (h.0, tt))
        added (some ss) = record { run = λ w h. (h.0, make c (sym e) h.1) }

    pub render_all-Planned :
        (source : Option Text) (rs : List Rendition)
        → Runs
            (At t d)
            (render_all tools p source rs)
            (λ out w. At t d w × Planned source rs out)
            (At t d)
    unfolding render_all
    render_all-Planned source [] = Runs-return (some []) (λ w h. (h, all_done))
    render_all-Planned source (r ∷ rs) =
        Runs-if (needed p r) _ _
          (λ e.
            Runs-bind (λ u. At t d) _ _ (Runs_of_Keeps io-At)
              λ u.
                Runs-bind (λ o w. At t d w × ((o ≡ resized tools source r) ⊎ (o ≡ none))) _ _
                  (or_give_up-At (resized tools source r))
                  λ o. record {
                    run = λ w h.
                        (go_on-Planned source r rs o (render_all tools p source rs) h.1
                            (render_all-Planned source rs)).run
                          w h.0;
                  })
          (λ e. Runs_weaken (skipped e) (λ w h. h) (render_all-Planned source rs))
      where
        skipped :
            needed p r ≡ false
            → (out : Option (List StagedVariant)) (w : World) → At t d w × Planned source rs out
            → At t d w × Planned source (r ∷ rs) out
        skipped e none w h = (h.0, tt)
        skipped e (some ss) w h = (h.0, skip e h.1)
