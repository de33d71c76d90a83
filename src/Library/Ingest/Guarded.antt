-- ===== src/Library/Ingest/Guarded.antt =====
-- The steps of Ingest on a photo that is hidden: they leave it hidden, and every other directory alone.
use smugbox.Library.Ingest.{save, undo}
use smugbox.Library.Ingest.Neutral.{IsSame, IsSame-refl, if-IsSame}
use smugbox.Library.Ingest.Untouched.{Hidden, Elsewhere, Guarded}
use smugbox.World.Invariant.{Blind, io-Keeps, execute-Runs}
use smugbox.World.{World, Staged, io, execute, commit, remove_photo_dir, remove_variant, set_disk}
use smugbox.Exec.{Result, ok, err, lift, return, internal, ◌>>◌}
use smugbox.Exec.Keeps.{
  Keeps, Keeps-return, Keeps-fail, Keeps-lift, Keeps-if, Keeps-bind, Keeps-attempt,
}
use smugbox.Exec.Runs.{
  Runs, Runs-bind, Runs-if, Runs-fail, Runs-lift, Runs_weaken, Runs_of_Keeps, Keeps-of_Runs,
}
use smugbox.Db.{Photo, Tables}
use smugbox.Db.Photos.{
  is_photo, insert_photo, update_photo, write_photo, at_photo, set_ready, mark_variants_pending,
}
use smugbox.Storage.{FilePath, Variant, file_path, photo_dir}
use smugbox.Storage.Disk.{
  StoredFile, read_file, put_file, remove_file, in_dir, path_eq, path_eq_iff, read_file-put,
  read_file-remove, read_file-remove_photo,
}
use smugbox.Media.{Tools}
use smugbox.Common.{
  Text, List, map, ◌≡◌, ◌∙◌, Bool, ◌∷◌, false, arith, true, subst, text_eq, Bool-cases, sym, ◌++◌,
  text_eq_refl, if◌then◌else◌, ◌&&◌, [], ap, inl, inr, refl, All-append,
}

Hidden-map :
    (a i : Text) (d : List StoredFile) (f : Photo → Photo) (ps : List Photo)
    → ((q : Photo) → IsSame q (f q))
    → Hidden a i d ps
    → Hidden a i d (map f ps)
Hidden-map a i d f [] s h = tt
Hidden-map a i d f (q ∷ ps) s (h, hs) = (
  (λ e.
      let same = s q in
      same.ready
      ∙ h (
          subst (λ x. (text_eq x a && text_eq q.id i) ≡ true) same.album
            (subst (λ x. (text_eq (f q).album_id a && text_eq x i) ≡ true) same.id e))),
  Hidden-map a i d f ps s hs,
)

Hidden-hide :
    (a i : Text) (d : List StoredFile) (ps : List Photo)
    → Hidden a i d (map (at_photo a i (set_ready false)) ps)
Hidden-hide a i d [] = tt
Hidden-hide a i d (q ∷ ps) = (hidden, Hidden-hide a i d ps)
  where
    hidden :
        is_photo a i (at_photo a i (set_ready false) q) ≡ true
        → (at_photo a i (set_ready false) q).variants_ready ≡ false
    hidden = elim (Bool-cases (is_photo a i q)) [
      | inl here ↦ λ e. rw here refl
      | inr other ↦ λ e. absurd (ground (arith, other, e))
    ]

update_photo-Hidden :
    (a i : Text) (d : List StoredFile) (p : Photo) (t t' : Tables)
    → Hidden a i d t.photos
    → update_photo p t ≡ ok t'
    → Hidden a i d t'.photos
unfolding update_photo
update_photo-Hidden a i d p t t' h e =
    let after : t' ≡ record t { photos = map (at_photo p.album_id p.id (write_photo p)) t.photos } =
      ground (arith, e) in
    subst (λ x. Hidden a i d x.photos) (sym after)
      (Hidden-map a i d (at_photo p.album_id p.id (write_photo p)) t.photos
        (λ q.
          if-IsSame (is_photo p.album_id p.id q) q (write_photo p q) q
            (record { id = refl; album = refl; ready = refl }) (IsSame-refl q))
        h)

insert_photo-Hidden :
    (a i : Text) (d : List StoredFile) (p : Photo) (t t' : Tables)
    → p.variants_ready ≡ false
    → Hidden a i d t.photos
    → insert_photo p t ≡ ok t'
    → Hidden a i d t'.photos
unfolding insert_photo
insert_photo-Hidden a i d p t t' r h e =
    let after : t' ≡ record t { photos = t.photos ++ p ∷ [] } = ground (arith, e) in
    subst (λ x. Hidden a i d x.photos) (sym after)
      (All-append (λ q. is_photo a i q ≡ true → q.variants_ready ≡ false) t.photos (p ∷ []) h
        ((λ m. r), tt))

module _ (tools : Tools) (a i : Text) (d : List StoredFile) where
  blind : Blind (Guarded a i d)
  blind w fs h = h

  file_path-in_dir :
      (v : Variant) (mime : Text) (q : FilePath)
      → file_path tools.parse_uuid a i v mime ≡ ok q
      → in_dir a i q ≡ true
  unfolding file_path photo_dir
  file_path-in_dir v mime q e = ground (arith, e, text_eq_refl a, text_eq_refl i)

  apart : (q x : FilePath) → in_dir a i q ≡ true → in_dir a i x ≡ false → path_eq x q ≡ false
  apart q x h k = elim (Bool-cases (path_eq x q)) [
    | inr other ↦ other
    | inl same ↦
        absurd (ground (arith, h, subst (λ y. in_dir a i y ≡ false) ((path_eq_iff x q).0 same) k))
  ]

  put-Elsewhere :
      (q : FilePath) (c : Text) (e : List StoredFile)
      → in_dir a i q ≡ true
      → Elsewhere a i d e
      → Elsewhere a i d (put_file q c e)
  put-Elsewhere q c e h k x m =
      read_file-put q x c e ∙ ground (arith, apart q x h m, path_eq_iff q x, path_eq_iff x q, k x m)

  -- The place of a file of the photo.
  place :
      (v : Variant) (mime : Text)
      → Runs
          (Guarded a i d)
          (lift (file_path tools.parse_uuid a i v mime))
          (λ q w. Guarded a i d w × (in_dir a i q ≡ true))
          (Guarded a i d)
  place v mime =
      Runs_weaken (λ q w h. (h.0, file_path-in_dir v mime q h.1)) (λ w h. h)
        (Runs-lift (file_path tools.parse_uuid a i v mime) (λ w h. h))

  pause : Runs (Guarded a i d) io (λ u. Guarded a i d) (Guarded a i d)
  pause = Runs_of_Keeps (io-Keeps (Guarded a i d) blind)

  pub commit-Guarded :
      (st : Staged) (v : Variant) (mime : Text)
      → Runs (Guarded a i d) (commit tools st a i v mime) (λ s. Guarded a i d) (Guarded a i d)
  unfolding commit
  commit-Guarded st v mime =
      Runs-if st.committed _ _ (λ e. Runs-fail internal (λ w h. h))
        (λ e.
          Runs-bind (λ q w. Guarded a i d w × (in_dir a i q ≡ true)) _ _ (place v mime)
            λ q. record { run = λ w h. (stored q h.1).run w h.0 })
    where
      stored :
          (q : FilePath)
          → in_dir a i q ≡ true
          → Runs
              (Guarded a i d)
              (io
                >> (io
                    >> (io
                        >> (set_disk (put_file q st.content)
                            >> return (record st { committed = true })))))
              (λ s. Guarded a i d)
              (Guarded a i d)
      stored q m =
          Runs-bind (λ u. Guarded a i d) _ _ pause
            λ u.
              Runs-bind (λ u. Guarded a i d) _ _ pause
                λ u.
                  Runs-bind (λ u. Guarded a i d) _ _ pause
                    λ u. record { run = λ w h. (h.0, put-Elsewhere q st.content w.disk m h.1) }

  pub remove_variant-Guarded :
      (v : Variant) (mime : Text) → Keeps (Guarded a i d) (remove_variant tools a i v mime)
  unfolding remove_variant
  remove_variant-Guarded v mime = Keeps-of_Runs (
      Runs-bind (λ q w. Guarded a i d w × (in_dir a i q ≡ true)) _ _ (place v mime)
        λ q. record { run = λ w h. (removed q h.1).run w h.0 })
    where
      removed :
          (q : FilePath)
          → in_dir a i q ≡ true
          → Runs
              (Guarded a i d)
              (io >> set_disk (remove_file q))
              (λ s. Guarded a i d)
              (Guarded a i d)
      removed q m =
          Runs-bind (λ u. Guarded a i d) _ _ pause
            λ u. record {
              run = λ w h. (h.0, λ x n. read_file-remove q x w.disk (apart q x m n) ∙ h.1 x n);
            }

  pub remove_photo_dir-Guarded : Keeps (Guarded a i d) (remove_photo_dir tools a i)
  unfolding remove_photo_dir
  remove_photo_dir-Guarded = Keeps-bind _ _ (Keeps-lift _) λ p.
      Keeps-bind _ _ (io-Keeps (Guarded a i d) blind)
        λ u. record { run = λ w h. (h.0, λ x n. read_file-remove_photo a i x w.disk n ∙ h.1 x n) }

  undo-Guarded :
      (is_new : Bool) (p : Photo) (r : Result (Unit {0}))
      → p.album_id ≡ a
      → p.id ≡ i
      → Keeps (Guarded a i d) (undo tools is_new p r)
  undo-Guarded is_new p (ok u) ea ei = Keeps-return tt
  undo-Guarded is_new p (err e) ea ei =
      Keeps-if is_new _ _
        (λ h.
          Keeps-bind _ _
            (Keeps-attempt _ (
              subst (λ x. Keeps (Guarded a i d) (remove_photo_dir tools x p.id)) (sym ea)
                (subst (λ x. Keeps (Guarded a i d) (remove_photo_dir tools a x)) (sym ei)
                  remove_photo_dir-Guarded)))
            λ r. Keeps-fail e)
        (λ h. Keeps-fail e)

  rows-Hidden :
      (is_new : Bool) (p : Photo) (t t' : Tables)
      → (is_new ≡ true → p.variants_ready ≡ false)
      → Hidden a i d t.photos
      → (if is_new then insert_photo p else update_photo p) t ≡ ok t'
      → Hidden a i d t'.photos
  rows-Hidden true p t t' r h e = insert_photo-Hidden a i d p t t' (r refl) h e
  rows-Hidden false p t t' r h e = update_photo-Hidden a i d p t t' h e

  pub save-Guarded :
      (is_new : Bool) (p : Photo)
      → (is_new ≡ true → p.variants_ready ≡ false)
      → p.album_id ≡ a
      → p.id ≡ i
      → Keeps (Guarded a i d) (save tools is_new p)
  unfolding save
  save-Guarded is_new p r ea ei =
      Keeps-bind _ _
        (Keeps-attempt _ (
          Keeps-of_Runs (
            execute-Runs (Guarded a i d) (Guarded a i d)
              (if is_new then insert_photo p else update_photo p) blind
              (λ w t h e. (rows-Hidden is_new p w.tables t r h.0 e, h.1)))))
        λ o. undo-Guarded is_new p o ea ei

  -- What hides a photo that was there before.
  pub hide-Guarded :
      Runs
        (λ w. w.disk ≡ d)
        (execute (mark_variants_pending a i))
        (λ u. Guarded a i d)
        (λ w. w.disk ≡ d)
  unfolding mark_variants_pending
  hide-Guarded =
      execute-Runs (λ w. w.disk ≡ d) (Guarded a i d) (mark_variants_pending a i) (λ w fs h. h)
        hidden
    where
      hidden :
          (w : World) (t : Tables)
          → w.disk ≡ d
          → mark_variants_pending a i w.tables ≡ ok t
          → Guarded a i d (record w { tables = t })
      hidden w t h e =
          let after : t
              ≡ record w.tables { photos = map (at_photo a i (set_ready false)) w.tables.photos } =
            ground (arith, e) in
          (
            subst (λ x. Hidden a i d x.photos) (sym after) (Hidden-hide a i d w.tables.photos),
            λ x n. ap (read_file x) h,
          )
