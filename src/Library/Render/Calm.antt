-- ===== src/Library/Render/Calm.antt =====
-- Render's steps where nothing fails.
use smugbox.Library.Render.{
  StagedVariant, commit_all, drop_large, resized, render_all, or_give_up, go_on, add_variant,
}
use smugbox.Library.Render.Planned.{Plan, all_done, skip, make}
use smugbox.Library.Render.Committed.{path_of, name_of}
use smugbox.Library.Renditions.{Rendition, needed, has_large, is_video}
use smugbox.World.{World, Staged, io, query, strike, commit, remove_variant}
use smugbox.Exec.{Result, ok, lift, return, gets, ◌>>=◌}
use smugbox.Exec.Runs.{Runs, Runs-bind, Runs-if, Runs-return, Runs_before, Post}
use smugbox.Db.{Photo, Tables}
use smugbox.Storage.{Variant, large, file_path, photo_dir, valid_id}
use smugbox.Storage.Disk.{StoredFile}
use smugbox.Media.{Tools}
use smugbox.Common.{
  List, ◌≡◌, Text, Bool, [], subst, ap, true, false, Option, some, ◌∷◌, sym, ◌∙◌, arith, is_some,
  refl, none,
}

-- An action that does not fail.
abbrev pub Never : World → Type 0
Never w = ⊥

strike-nil : (fs : List Bool) (w : World) → fs ≡ [] → strike fs w ≡ (ok tt, w)
strike-nil [] w e = refl
strike-nil (f ∷ fs) w e = absurd (cc)

pub io-calm : (P : World → Type 0) → ((w : World) → P w → w.faults ≡ []) → Runs P io (λ u. P) Never
unfolding io
io-calm P calm = record {
  run = λ w h. subst (λ r. Post (λ u. P) Never r.0 r.1) (sym (strike-nil w.faults w (calm w h))) h;
}

pub lift-ok :
    {A : Type 0} (P : World → Type 0) (r : Result A) (a : A)
    → r ≡ ok a
    → Runs P (lift r) (λ x w. P w × (x ≡ a)) Never
lift-ok P r a e = record {
  run = λ w h. subst (λ o. Post (λ x w. P w × (x ≡ a)) Never o w) (sym e) (h, refl);
}

-- The tables, and no faults to come.
abbrev pub Quiet : Tables → World → Type 0
Quiet t w = (w.tables ≡ t) × (w.faults ≡ [])

-- The disk too.
abbrev pub Still : Tables → List StoredFile → World → Type 0
Still t d w = (w.disk ≡ d) × Quiet t w

pub query-calm :
    {A : Type 0} (t : Tables) (d : List StoredFile) (f : Tables → Result A) (a : A)
    → f t ≡ ok a
    → Runs (Still t d) (query f) (λ x w. Still t d w × (x ≡ a)) Never
unfolding query
query-calm t d f a e =
    Runs-bind (λ u. Still t d) _ _ (io-calm (Still t d) (λ w h. h.1.1))
      λ u.
        Runs-bind (λ r w. Still t d w × (r ≡ f t)) (gets (λ w. f w.tables)) lift
          (record { run = λ w h. (h, ap f h.1.0) })
          λ r. record { run = λ w h. (lift-ok (Still t d) r a (h.1 ∙ e)).run w h.0 }

module _ (tools : Tools) (p : Photo) (content : Text) where
  -- The renditions of an image are made from its original, those of a video from its poster frame.
  abbrev pub drawn_from : Bool → Option Text
  drawn_from true = tools.poster content p.duration_ms
  drawn_from false = some content

  -- What the theorem asks of the photo: ids that are uuids, and a source that can be rendered.
  pub record IsRenderable : Type 0 where
    pub album : valid_id tools.parse_uuid p.album_id ≡ true
    pub id : valid_id tools.parse_uuid p.id ≡ true
    pub source : Text
    pub drawn : drawn_from (is_video p) ≡ some source
    pub resizes : (r : Rendition) → (c : Text) × (resized tools (some source) r ≡ some c)

  module _ (ready : IsRenderable) (t : Tables) where
    pub place :
        (v : Variant)
        → file_path tools.parse_uuid p.album_id p.id v p.mime_type
          ≡ ok (path_of tools p (name_of tools p v))
    unfolding file_path photo_dir
    place v = ground (arith, ready.album, ready.id)

    commit-calm :
        (st : Staged) (v : Variant)
        → st.committed ≡ false
        → Runs (Quiet t) (commit tools st p.album_id p.id v p.mime_type) (λ s. Quiet t) Never
    unfolding commit
    commit-calm st v e =
        Runs-if st.committed _ _ (λ c. absurd (ground (arith, e, c)))
          (λ c.
            Runs-bind (λ q w. Quiet t w × (q ≡ path_of tools p (name_of tools p v))) _ _
              (lift-ok (Quiet t) _ _ (place v))
              λ q.
                Runs-bind (λ u. Quiet t) _ _ (Runs_before (λ w h. h.0) pause)
                  λ u.
                    Runs-bind (λ u. Quiet t) _ _ pause
                      λ u. Runs-bind (λ u. Quiet t) _ _ pause λ u. record { run = λ w h. h })
      where
        pause : Runs (Quiet t) io (λ u. Quiet t) Never
        pause = io-calm (Quiet t) (λ w h. h.1)

    pub commit_all-calm :
        (source : Option Text) (rs : List Rendition) (ss : List StagedVariant)
        → Plan tools p source rs ss
        → Runs (Quiet t) (commit_all tools p ss) (λ u. Quiet t) Never
    unfolding commit_all
    commit_all-calm source [] _ all_done = Runs-return tt (λ w h. h)
    commit_all-calm source (r ∷ rs) ss (skip n pl) = commit_all-calm source rs ss pl
    commit_all-calm source (r ∷ rs) (_ ∷ ss) (make c e pl) =
        Runs-bind (λ s. Quiet t) _ _
          (commit-calm (record { content = c; committed = false }) r.variant refl)
          λ s. commit_all-calm source rs ss pl

    pub drop_large-calm : Runs (Quiet t) (drop_large tools p) (λ u. Quiet t) Never
    unfolding remove_variant
    drop_large-calm =
        Runs-if (has_large p) _ _ (λ e. Runs-return tt (λ w h. h))
          (λ e.
            Runs-bind (λ q w. Quiet t w × (q ≡ path_of tools p (name_of tools p large))) _ _
              (lift-ok (Quiet t) _ _ (place large))
              λ q.
                Runs-bind (λ u. Quiet t) _ _
                  (Runs_before (λ w h. h.0) (io-calm (Quiet t) (λ w h. h.1)))
                  λ u. record { run = λ w h. h })

    pub render_all-some :
        (d : List StoredFile) (rs : List Rendition)
        → Runs
            (Still t d)
            (render_all tools p (some ready.source) rs)
            (λ out w. Still t d w × (is_some out ≡ true))
            Never
    unfolding render_all
    render_all-some d [] = Runs-return (some []) (λ w h. (h, refl))
    render_all-some d (r ∷ rs) =
        Runs-if (needed p r) _ _
          (λ e.
            Runs-bind (λ u. Still t d) _ _ (io-calm (Still t d) (λ w h. h.1.1))
              λ u.
                subst
                  (λ o.
                    Runs (Still t d)
                      (or_give_up tools p o >>= λ c.
                        go_on tools r c (render_all tools p (some ready.source) rs))
                      (λ out w. Still t d w × (is_some out ≡ true)) Never)
                  (sym (ready.resizes r).1)
                  (Runs-bind (λ o w. Still t d w × (is_some o ≡ true))
                    (render_all tools p (some ready.source) rs)
                    (λ rest. return (add_variant tools r (ready.resizes r).0 rest))
                    (render_all-some d rs) λ rest. added rest))
          (λ e. render_all-some d rs)
      where
        added :
            (rest : Option (List StagedVariant))
            → Runs
                (λ w. Still t d w × (is_some rest ≡ true))
                (return (add_variant tools r (ready.resizes r).0 rest))
                (λ out w. Still t d w × (is_some out ≡ true))
                Never
        added none = record { run = λ w h. absurd (ground (arith, h.1)) }
        added (some ss) = Runs-return _ (λ w h. (h.0, refl))
