-- ===== src/Library/Render/Spared.antt =====
-- Remove and the files of photos that have a row afterwards.
use smugbox.Library.Render.{remove, remove_row}
use smugbox.Library.Ingest.Untouched.{
  Untouched, Hidden, Guarded, Guarded-Untouched, Same-Untouched, Untouched-ready, unharmed,
}
use smugbox.Library.Ingest.Guarded.{remove_photo_dir-Guarded}
use smugbox.World.Invariant.{execute-Runs}
use smugbox.World.{World}
use smugbox.Exec.{Result, ok, err, client, not_found}
use smugbox.Exec.Keeps.{Keeps-bind, Keeps-attempt, Keeps-return}
use smugbox.Exec.Runs.{Runs, Runs-bind, Runs-fail, Runs-attempt, Runs_weaken, Runs_of_Keeps, Post}
use smugbox.Db.{Photo, Tables}
use smugbox.Db.Photos.{is_photo, delete_photo, get_photo}
use smugbox.Storage.{FilePath}
use smugbox.Storage.Disk.{StoredFile, read_file, in_dir}
use smugbox.Media.{Tools}
use smugbox.Common.{
  List, Text, filter, not, ◌∷◌, ◌≡◌, Bool-cases, subst, ap, true, arith, inl, refl, inr, [],
}

module _ (a i : Text) (d : List StoredFile) where
  without-Hidden : (ps : List Photo) → Hidden a i d (filter (λ p. not (is_photo a i p)) ps)
  without-Hidden [] = tt
  without-Hidden (q ∷ ps) = elim (Bool-cases (is_photo a i q)) [
    | inl here ↦ rw here (without-Hidden ps)
    | inr other ↦ rw other ((λ e. absurd (cc)), without-Hidden ps)
  ]

  delete_photo-Hidden : (t t' : Tables) → delete_photo a i t ≡ ok t' → Hidden a i d t'.photos
  unfolding delete_photo
  delete_photo-Hidden t t' e =
      let same : record t { photos = filter (λ p. not (is_photo a i p)) t.photos } ≡ t' =
        ground (arith, e) in
      subst (λ (t : Tables). Hidden a i d t.photos) same (without-Hidden t.photos)

  removed :
      (tools : Tools) (r : Result (Unit {0}))
      → Runs
          (Post (λ u. Guarded a i d) (λ w. w.disk ≡ d) r)
          (remove_row tools a i r)
          (λ u. Untouched d)
          (Untouched d)
  removed tools (ok u) =
      Runs_weaken (λ u w h. Guarded-Untouched a i d w h) (Guarded-Untouched a i d)
        (Runs_of_Keeps (
          Keeps-bind _ _ (Keeps-attempt _ (remove_photo_dir-Guarded tools a i d))
            λ r. Keeps-return tt))
  removed tools (err not_found) = Runs-fail (client "photo_not_found") (λ w h. Same-Untouched d w h)
  removed tools (err e) = Runs-fail e (λ w h. Same-Untouched d w h)

  remove-Runs :
      (tools : Tools) → Runs (λ w. w.disk ≡ d) (remove tools a i) (λ u. Untouched d) (Untouched d)
  unfolding remove
  remove-Runs tools =
      Runs-bind (λ r w. Post (λ u. Guarded a i d) (λ w. w.disk ≡ d) r w) _ _
        (Runs-attempt _ (
          execute-Runs (λ w. w.disk ≡ d) (Guarded a i d) (delete_photo a i) (λ w fs h. h)
            (λ w t h e. (delete_photo-Hidden w.tables t e, λ x n. ap (read_file x) h))))
        λ r. removed tools r

-- Whatever fails in `Remove`: where a photo is ready afterwards, the files of its directory are as
-- they were before.
pub remove-keeps_ready :
    (tools : Tools) (a i : Text) (w : World) (b j : Text) (q : Photo)
    → get_photo b j (remove tools a i w).1.tables ≡ ok q
    → q.variants_ready ≡ true
    → (x : FilePath) → in_dir b j x ≡ true
    → read_file x (remove tools a i w).1.disk ≡ read_file x w.disk
remove-keeps_ready tools a i w b j q m r x k =
    Untouched-ready w.disk (remove tools a i w).1 b j q
      (unharmed w.disk _ _ ((remove-Runs a i w.disk tools).run w refl)) m r x k
