-- ===== src/Library/Render/Committed.antt =====
-- What stands on the disk once the variants are committed.
use smugbox.Library.Render.{StagedVariant, commit_all, resized}
use smugbox.Library.Render.Planned.{Plan, all_done, skip, make}
use smugbox.Library.Renditions.{Rendition, needed}
use smugbox.World.{World, Staged, io, commit, strike, set_disk}
use smugbox.Exec.{ok, lift, return, internal, ◌>>◌}
use smugbox.Exec.Keeps.{Keeps}
use smugbox.Exec.Runs.{
  Runs, Runs-bind, Runs-if, Runs-return, Runs-fail, Runs_weaken, Runs_of_Keeps, Runs-lift,
}
use smugbox.Db.{Photo, Tables}
use smugbox.Storage.{FilePath, file_path, photo_dir, filename, Variant}
use smugbox.Storage.Disk.{StoredFile, read_file, put_file, read_file-put, path_eq_iff}
use smugbox.Media.{Tools}
use smugbox.Common.{
  Text, List, ◌≡◌, Option, All, arith, Bool, ◌∷◌, Pairwise, ◌≢◌, some, true, [], ◌∙◌, subst, false,
  sym, refl,
}

module _ (tools : Tools) (p : Photo) where
  abbrev pub path_of : Text → FilePath
  path_of name = record { album_id = p.album_id; photo_id = p.id; name = name }

  abbrev pub name_of : Variant → Text
  name_of v = filename v p.mime_type

  -- These files of the photo have these contents.
  abbrev pub Known : List (Text × Option Text) → List StoredFile → Type 0
  Known ks d = All (λ k. read_file (path_of k.0) d ≡ k.1) ks

  abbrev pub Reads : Tables → List (Text × Option Text) → World → Type 0
  Reads t ks w = (w.tables ≡ t) × Known ks w.disk

  pub file_path-path_of :
      (v : Variant) (q : FilePath)
      → file_path tools.parse_uuid p.album_id p.id v p.mime_type ≡ ok q
      → q ≡ path_of (name_of v)
  unfolding file_path photo_dir
  file_path-path_of v q e = ground (arith, e)

  pub path-found :
      (P E : World → Type 0) (v : Variant)
      → ((w : World) → P w → E w)
      → Runs P
          (lift (file_path tools.parse_uuid p.album_id p.id v p.mime_type))
          (λ q w. P w × (q ≡ path_of (name_of v)))
          E
  path-found P E v f =
      Runs_weaken (λ q w h. (h.0, file_path-path_of v q h.1)) (λ w h. h)
        (Runs-lift (file_path tools.parse_uuid p.album_id p.id v p.mime_type) f)

  pub Known-put :
      (name content : Text) (ks : List (Text × Option Text)) (d : List StoredFile)
      → All (λ k. k.0 ≢ name) ks
      → Known ks d
      → Known ((name, some content) ∷ ks) (put_file (path_of name) content d)
  Known-put name content ks d apart h = (here, others ks apart h)
    where
      here : read_file (path_of name) (put_file (path_of name) content d) ≡ some content
      here =
          read_file-put (path_of name) (path_of name) content d
          ∙ rw ((path_eq_iff (path_of name) (path_of name)).1 refl) refl

      others :
          (ks : List (Text × Option Text))
          → All (λ k. k.0 ≢ name) ks
          → Known ks d
          → Known ks (put_file (path_of name) content d)
      others [] a h = tt
      others ((n, o) ∷ ks) (a, az) (h, hs) = (
        read_file-put (path_of name) (path_of n) content d
            ∙ ground (arith, path_eq_iff (path_of name) (path_of n), h),
        others ks az hs,
      )

  module _ (t : Tables) where
    io-Reads : (ks : List (Text × Option Text)) → Keeps (Reads t ks) io
    unfolding io
    io-Reads ks = record { run = λ w h. struck w.faults w h }
      where
        struck : (fs : List Bool) (w : World) → Reads t ks w → Reads t ks (strike fs w).1
        struck [] w h = h
        struck (true ∷ fs) w h = h
        struck (false ∷ fs) w h = h

    commit-Reads :
        (st : Staged) (v : Variant) (ks : List (Text × Option Text))
        → All (λ k. k.0 ≢ name_of v) ks
        → Runs
            (Reads t ks)
            (commit tools st p.album_id p.id v p.mime_type)
            (λ s. Reads t ((name_of v, some st.content) ∷ ks))
            (λ w. w.tables ≡ t)
    unfolding commit
    commit-Reads st v ks apart =
        Runs-if st.committed _ _ (λ e. Runs-fail internal (λ w h. h.0))
          (λ e.
            Runs-bind (λ dst w. Reads t ks w × (dst ≡ path_of (name_of v))) _ _
              (path-found (Reads t ks) (λ w. w.tables ≡ t) v weak)
              λ dst. record { run = λ w h. (stored dst h.1).run w h.0 })
      where
        weak : (w : World) → Reads t ks w → w.tables ≡ t
        weak w h = h.0

        pause : Runs (Reads t ks) io (λ u. Reads t ks) (λ w. w.tables ≡ t)
        pause = Runs_weaken (λ u w h. h) weak (Runs_of_Keeps (io-Reads ks))

        stored :
            (dst : FilePath)
            → dst ≡ path_of (name_of v)
            → Runs
                (Reads t ks)
                (io
                  >> (io
                      >> (io
                          >> (set_disk (put_file dst st.content)
                              >> return (record st { committed = true })))))
                (λ s. Reads t ((name_of v, some st.content) ∷ ks))
                (λ w. w.tables ≡ t)
        stored dst e =
            Runs-bind (λ u. Reads t ks) _ _ pause
              λ u.
                Runs-bind (λ u. Reads t ks) _ _ pause
                  λ u.
                    Runs-bind (λ u. Reads t ks) _ _ pause
                      λ u. record {
                        run = λ w h. (
                          h.0,
                          subst
                              (λ x.
                                Known ((name_of v, some st.content) ∷ ks)
                                  (put_file x st.content w.disk))
                              (sym e) (Known-put (name_of v) st.content ks w.disk apart h.1),
                        );
                      }

    -- What is known after the commits, and that no commit overwrites what is known.
    abbrev pub learn : List (Text × Option Text) → List StagedVariant → List (Text × Option Text)
    learn ks [] = ks
    learn ks (s ∷ ss) = learn ((name_of s.variant, some s.staged.content) ∷ ks) ss

    abbrev pub Fresh : List (Text × Option Text) → List StagedVariant → Type 0
    Fresh ks [] = Unit {0}
    Fresh ks (s ∷ ss) =
        All (λ k. k.0 ≢ name_of s.variant) ks
        × Fresh ((name_of s.variant, some s.staged.content) ∷ ks) ss

    pub commit_all-Reads :
        (ks : List (Text × Option Text)) (ss : List StagedVariant)
        → Fresh ks ss
        → Runs (Reads t ks) (commit_all tools p ss) (λ u. Reads t (learn ks ss)) (λ w. w.tables ≡ t)
    unfolding commit_all
    commit_all-Reads ks [] f = Runs-return tt (λ w h. h)
    commit_all-Reads ks (s ∷ ss) (f, fs) =
        Runs-bind (λ st. Reads t ((name_of s.variant, some s.staged.content) ∷ ks)) _ _
          (commit-Reads s.staged s.variant ks f)
          λ st. commit_all-Reads ((name_of s.variant, some s.staged.content) ∷ ks) ss fs

    pub Known-learn :
        (ks : List (Text × Option Text)) (ss : List StagedVariant) (d : List StoredFile)
        → Known (learn ks ss) d
        → Known ks d
    Known-learn ks [] d h = h
    Known-learn ks (s ∷ ss) d h =
        (Known-learn ((name_of s.variant, some s.staged.content) ∷ ks) ss d h).1

    -- A plan for renditions with names of their own overwrites nothing.
    pub Plan-Fresh :
        (source : Option Text) (rs : List Rendition) (ss : List StagedVariant)
        (ks : List (Text × Option Text))
        → Plan tools p source rs ss
        → Pairwise (λ r q. name_of r.variant ≢ name_of q.variant) rs
        → All (λ r. All (λ k. k.0 ≢ name_of r.variant) ks) rs
        → Fresh ks ss
    Plan-Fresh source [] _ ks all_done d a = tt
    Plan-Fresh source (r ∷ rs) ss ks (skip n pl) (d, ds) (a, az) =
        Plan-Fresh source rs ss ks pl ds az
    Plan-Fresh source (r ∷ rs) (_ ∷ ss) ks (make c e pl) (d, ds) (a, az) =
        (a, Plan-Fresh source rs ss ((name_of r.variant, some c) ∷ ks) pl ds (both rs d az))
      where
        both :
            (qs : List Rendition)
            → All (λ q. name_of r.variant ≢ name_of q.variant) qs
            → All (λ q. All (λ k. k.0 ≢ name_of q.variant) ks) qs
            → All (λ q. All (λ k. k.0 ≢ name_of q.variant) ((name_of r.variant, some c) ∷ ks)) qs
        both [] d a = tt
        both (q ∷ qs) (d, ds) (a, az) = ((d, a), both qs ds az)

    -- Each rendition that the photo needs is on the disk as it was planned.
    pub Plan-Known :
        (source : Option Text) (rs : List Rendition) (ss : List StagedVariant)
        (ks : List (Text × Option Text)) (disk : List StoredFile)
        → Plan tools p source rs ss
        → Known (learn ks ss) disk
        → All
            (λ r.
              needed p r ≡ true
              → (c : Text) × (resized tools source r ≡ some c)
                × (read_file (path_of (name_of r.variant)) disk ≡ some c))
            rs
    Plan-Known source [] _ ks disk all_done h = tt
    Plan-Known source (r ∷ rs) ss ks disk (skip n pl) h =
        ((λ e. absurd (ground (arith, n, e))), Plan-Known source rs ss ks disk pl h)
    Plan-Known source (r ∷ rs) (_ ∷ ss) ks disk (make c e pl) h = (
      (λ n. (c, e, (Known-learn ((name_of r.variant, some c) ∷ ks) ss disk h).0)),
      Plan-Known source rs ss ((name_of r.variant, some c) ∷ ks) disk pl h,
    )
