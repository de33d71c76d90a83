-- ===== src/Library/Ingest/Spared.antt =====
-- Ingest as a whole: it never touches the files of a photo that is ready afterwards.
use smugbox.Library.Ingest.{
  Upload, Checked, check_optional, resolve_id, find_target, target, with_file, new_photo,
  write_target, ingest,
}
use smugbox.Library.Ingest.Neutral.{IsSame, IsSame-trans, Neutral, parse_metadata-Neutral}
use smugbox.Library.Ingest.Untouched.{
  Untouched, Hidden, Guarded, Same-Untouched, Untouched-ready, unharmed,
}
use smugbox.Library.Ingest.Kept.{Keeps-check_optional, Keeps-resolve_id}
use smugbox.Library.Metadata.{Fields, Edit, field_or_empty, max_lr_uuid_len, parse_metadata}
use smugbox.World.{World, io, strike, query}
use smugbox.Exec.{Exec, Result, ok, err, attempt, lift, gets, client, not_found, ◌>>=◌}
use smugbox.Exec.Keeps.{Keeps}
use smugbox.Exec.Runs.{
  Runs, Runs-bind, Runs-if, Runs-return, Runs-fail, Runs-lift, Runs_weaken, Runs_before,
  Runs_of_Keeps,
}
use smugbox.Db.{Photo, Tables}
use smugbox.Db.Photos.{is_photo, get_photo}
use smugbox.Storage.{FilePath}
use smugbox.Storage.Disk.{StoredFile, read_file, in_dir}
use smugbox.Media.{Tools}
use smugbox.Common.{
  is_empty, List, refl, ◌≡◌, Bool, false, Text, ℕ, true, none, Option, find?, arith, ◌∷◌, some,
  Bool-cases, subst, [], sym, inl, ap, inr, not, trim_space, ◌&&◌, ◌||◌, ltb, length,
}
use smugbox.Library.Ingest.Stored.{Same, Start, stored, edited, with_file-IsSame}

module _ (tools : Tools) (d : List StoredFile) where
  abbrev TargetKnown : (a i : Text) → Option Photo → World → Type 0
  TargetKnown a i found w = Same d w × (found ≡ none → Hidden a i d w.tables.photos)

  none-Hidden : (a i : Text) (ps : List Photo) → find? (is_photo a i) ps ≡ none → Hidden a i d ps
  none-Hidden a i [] e = tt
  none-Hidden a i (q ∷ ps) e = elim (Bool-cases (is_photo a i q)) [
    | inl here ↦ absurd (ground (arith, e, here))
    | inr other ↦
        ((λ m. absurd (ground (arith, m, other))), none-Hidden a i ps (ground (arith, e, other)))
  ]

  missing-Hidden :
      (a i : Text) (t : Tables) → get_photo a i t ≡ err not_found → Hidden a i d t.photos
  unfolding get_photo
  missing-Hidden a i t e = none-Hidden a i t.photos (ground (arith, e))

  -- A lookup finds no row only if there is none.
  lookup :
      (a i : Text)
      → Runs
          (Same d)
          (attempt (query (get_photo a i)))
          (λ r w. Same d w × (r ≡ err not_found → Hidden a i d w.tables.photos))
          (Untouched d)
  unfolding query io
  lookup a i = record { run = λ w h. looked w.faults w h }
    where
      looked :
          (fs : List Bool) (w : World)
          → Same d w
          → (let o =
                (strike fs >>= λ u. gets (λ (w : World). get_photo a i w.tables) >>= λ r. lift r)
                  w in
              (Same d) o.1 × (o.0 ≡ err not_found → Hidden a i d o.1.tables.photos))
      looked [] w h = (h, missing-Hidden a i w.tables)
      looked (true ∷ fs) w h = (h, λ e. absurd (cc))
      looked (false ∷ fs) w h = (h, missing-Hidden a i w.tables)

  target-Runs :
      (a i : Text) (replace : Bool) (r : Result Photo)
      → Runs
          (λ w. Same d w × (r ≡ err not_found → Hidden a i d w.tables.photos))
          (target tools replace r)
          (TargetKnown a i)
          (Untouched d)
  target-Runs a i replace (ok p) = Runs-return (some p) (λ w h. (h.0, λ e. absurd (cc)))
  target-Runs a i replace (err not_found) =
      Runs-if replace _ _
        (λ e. Runs-fail (client "photo_not_found") (λ w h. Same-Untouched d w h.0))
        (λ e. Runs-return none (λ w h. (h.0, λ e. h.1 refl)))
  target-Runs a i replace (err e) = Runs-fail e (λ w h. Same-Untouched d w h.0)

  write_target-Runs :
      (fields : Fields) (now : ℕ) (a i lr : Text) (edit : Edit) (c : Option Checked)
      (found : Option Photo)
      → Neutral edit
      → Runs
          (TargetKnown a i found)
          (write_target tools fields now a i lr edit c found)
          (λ o. Untouched d)
          (Untouched d)
  unfolding write_target
  write_target-Runs fields now a i lr edit none (some p) n =
      Runs_before (λ w h. h.0) (edited tools d fields (edit (record p { updated_at = now })))
  write_target-Runs fields now a i lr edit (some c) (some p) n =
      Runs_before (λ w h. h.0)
        (stored tools d fields false (edit (record p { updated_at = now })) c (λ e. absurd (cc)))
  write_target-Runs fields now a i lr edit none none n =
      Runs-fail (client "missing_file") (λ w h. Same-Untouched d w h.0)
  write_target-Runs fields now a i lr edit (some c) none n = Runs_before fresh (
      stored tools d fields true (edit (new_photo i a lr now)) c
        (λ e. (n (new_photo i a lr now)).ready))
    where
      same : IsSame (new_photo i a lr now) (with_file fields c (edit (new_photo i a lr now)))
      same =
          IsSame-trans _ _ _ (n (new_photo i a lr now))
            (with_file-IsSame fields c (edit (new_photo i a lr now)))

      fresh :
          (w : World)
          → TargetKnown a i none w
          → Start d true (with_file fields c (edit (new_photo i a lr now))) w
      fresh w h =
          subst (λ x. Guarded x (with_file fields c (edit (new_photo i a lr now))).id d w)
            (sym same.album)
            (subst (λ x. Guarded a x d w) (sym same.id) (h.1 refl, λ x m. ap (read_file x) h.0))

  find_target-Runs :
      (a i : Text) (replace : Bool)
      → Runs (Same d) (find_target tools a i replace) (TargetKnown a i) (Untouched d)
  unfolding find_target
  find_target-Runs a i replace =
      Runs-bind (λ r w. Same d w × (r ≡ err not_found → Hidden a i d w.tables.photos)) _ _
        (lookup a i) λ r. target-Runs a i replace r

  from_same :
      {A : Type 0} {m : Exec World A}
      → Keeps (Same d) m
      → Runs (Same d) m (λ x. (Same d)) (Untouched d)
  from_same k = Runs_weaken (λ x w h. h) (λ w h. Same-Untouched d w h) (Runs_of_Keeps k)

  ingest-Runs :
      (now : ℕ) (fresh a i : Text) (fields : Fields) (up : Option Upload)
      → Runs (Same d) (ingest tools now fresh a i fields up) (λ o. Untouched d) (Untouched d)
  unfolding ingest
  ingest-Runs now fresh a i fields up =
      let lr = trim_space (field_or_empty (fields "lr_photo_uuid")) in
      Runs-if (not (not (is_empty i)) && (is_empty lr || ltb max_lr_uuid_len (length lr))) _ _
        (λ e. Runs-fail (client "missing_lr_photo_uuid") (λ w h. Same-Untouched d w h))
        (λ e.
          Runs-bind (λ edit w. Same d w × (parse_metadata tools fields ≡ ok edit))
            (lift (parse_metadata tools fields)) _
            (Runs-lift (parse_metadata tools fields) (λ w h. Same-Untouched d w h))
            λ edit. record {
              run = λ w h. (rest lr edit (parse_metadata-Neutral tools fields edit h.1)).run w h.0;
            })
    where
      rest :
          (lr : Text) (edit : Edit)
          → Neutral edit
          → Runs
              (Same d)
              (check_optional tools up >>= λ checked. resolve_id tools fresh a i lr >>= λ id.
                find_target tools a id (not (is_empty i)) >>= λ found.
                write_target tools fields now a id lr edit checked found)
              (λ o. Untouched d)
              (Untouched d)
      rest lr edit n =
          Runs-bind (λ x. (Same d)) _ _
            (from_same (Keeps-check_optional tools (Same d) (λ w fs h. h) up))
            λ checked.
              Runs-bind (λ x. (Same d)) _ _
                (from_same (Keeps-resolve_id tools (Same d) (λ w fs h. h) fresh a i lr))
                λ id.
                  Runs-bind (TargetKnown a id) _ _ (find_target-Runs a id (not (is_empty i)))
                    λ found. write_target-Runs fields now a id lr edit checked found n

-- Whatever `Ingest` is given and whatever fails on the way: where a photo is ready afterwards,
-- the files of its directory are as they were before.
pub ingest-keeps_ready :
    (tools : Tools) (now : ℕ) (fresh a i : Text) (fields : Fields) (up : Option Upload) (w : World)
    (b j : Text) (q : Photo)
    → get_photo b j (ingest tools now fresh a i fields up w).1.tables ≡ ok q
    → q.variants_ready ≡ true
    → (x : FilePath) → in_dir b j x ≡ true
    → read_file x (ingest tools now fresh a i fields up w).1.disk ≡ read_file x w.disk
ingest-keeps_ready tools now fresh a i fields up w b j q m r x k =
    Untouched-ready w.disk (ingest tools now fresh a i fields up w).1 b j q
      (unharmed w.disk _ _ ((ingest-Runs tools w.disk now fresh a i fields up).run w refl)) m r x k
