-- ===== src/Library/Ingest/Untouched.antt =====
-- What Ingest and Remove do to the files of photos that are ready: nothing.
use smugbox.World.{World}
use smugbox.Exec.{Result, ok, err}
use smugbox.Exec.Runs.{Post}
use smugbox.Db.{Photo, Tables}
use smugbox.Db.Photos.{is_photo, get_photo}
use smugbox.Storage.{FilePath}
use smugbox.Storage.Disk.{StoredFile, read_file, in_dir}
use smugbox.Common.{
  List, Text, ◌≡◌, All, false, true, All-map, arith, ◌∷◌, [], text_eq_iff, ap, find?, some,
  Bool-cases, inl, ◌∙◌, inr,
}

-- The files of each photo that is ready are those of the disk `d`.
abbrev pub Untouched : List StoredFile → World → Type 0
Untouched d w =
    All
      (λ q.
        q.variants_ready ≡ true
        → (x : FilePath) → in_dir q.album_id q.id x ≡ true
        → read_file x w.disk ≡ read_file x d)
      w.tables.photos

module _ (a i : Text) (d : List StoredFile) where
  -- The photo is hidden, and no other directory has changed.
  abbrev pub Hidden : List Photo → Type 0
  Hidden ps = All (λ q. is_photo a i q ≡ true → q.variants_ready ≡ false) ps

  abbrev pub Elsewhere : List StoredFile → Type 0
  Elsewhere e = (x : FilePath) → in_dir a i x ≡ false → read_file x e ≡ read_file x d

  abbrev pub Guarded : World → Type 0
  Guarded w = Hidden w.tables.photos × Elsewhere w.disk

  other_dir :
      (q : Photo) (x : FilePath)
      → (is_photo a i q ≡ true → q.variants_ready ≡ false)
      → q.variants_ready ≡ true
      → in_dir q.album_id q.id x ≡ true
      → in_dir a i x ≡ false
  other_dir q x h r e = ground (
    arith,
    r,
    e,
    h,
    text_eq_iff x.album_id q.album_id,
    text_eq_iff x.photo_id q.id,
    text_eq_iff x.album_id a,
    text_eq_iff x.photo_id i,
    text_eq_iff q.album_id a,
    text_eq_iff q.id i,
  )

  pub Guarded-Untouched : (w : World) → Guarded w → Untouched d w
  Guarded-Untouched w (h, e) = All-map (λ q k r x m. e x (other_dir q x k r m)) w.tables.photos h

pub Same-Untouched : (d : List StoredFile) (w : World) → w.disk ≡ d → Untouched d w
Same-Untouched d w e = every w.tables.photos
  where
    every :
        (ps : List Photo)
        → All
            (λ q.
              q.variants_ready ≡ true
              → (x : FilePath) → in_dir q.album_id q.id x ≡ true
              → read_file x w.disk ≡ read_file x d)
            ps
    every [] = tt
    every (q ∷ ps) = (λ r x m. ap (read_file x) e, every ps)

found_untouched :
    (d e : List StoredFile) (b j : Text) (ps : List Photo) (q : Photo)
    → All
        (λ q.
          q.variants_ready ≡ true
          → (x : FilePath) → in_dir q.album_id q.id x ≡ true
          → read_file x e ≡ read_file x d)
        ps
    → find? (is_photo b j) ps ≡ some q
    → q.variants_ready ≡ true
    → (x : FilePath) → in_dir b j x ≡ true
    → read_file x e ≡ read_file x d
found_untouched d e b j [] q h m r x k = absurd (cc)
found_untouched d e b j (p ∷ ps) q h m r x k = elim (Bool-cases (is_photo b j p)) [
  | inl here ↦
      let same : p ≡ q = ground (arith, m, here) in
      h.0 (ap (λ p. p.variants_ready) same ∙ r) x (
        ground (
          arith,
          k,
          here,
          text_eq_iff x.album_id b,
          text_eq_iff x.photo_id j,
          text_eq_iff p.album_id b,
          text_eq_iff p.id j,
          text_eq_iff x.album_id p.album_id,
          text_eq_iff x.photo_id p.id,
        ))
  | inr other ↦ found_untouched d e b j ps q h.1 (ground (arith, m, other)) r x k
]

got_found :
    (b j : Text) (t : Tables) (q : Photo)
    → get_photo b j t ≡ ok q
    → find? (is_photo b j) t.photos ≡ some q
unfolding get_photo
got_found b j t q m = ground (arith, m)

pub Untouched-ready :
    (d : List StoredFile) (w : World) (b j : Text) (q : Photo)
    → Untouched d w
    → get_photo b j w.tables ≡ ok q
    → q.variants_ready ≡ true
    → (x : FilePath) → in_dir b j x ≡ true
    → read_file x w.disk ≡ read_file x d
Untouched-ready d w b j q h m r x k =
    found_untouched d w.disk b j w.tables.photos q h (got_found b j w.tables q m) r x k

pub unharmed :
    (d : List StoredFile) {A : Type 0} (o : Result A) (v : World)
    → Post (λ o. Untouched d) (Untouched d) o v
    → Untouched d v
unharmed d (ok x) v h = h
unharmed d (err e) v h = h
