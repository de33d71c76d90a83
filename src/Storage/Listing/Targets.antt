-- ===== src/Storage/Listing/Targets.antt =====
-- What Walk and gcTargets never choose for removal: the directory of a photo that is to be kept, or the
-- album's directory above it.
use smugbox.Storage.Listing.{
  Place, PhotoDir, Listing, DirEntry, AlbumEntry, gc_targets, orphans, stale_incoming, referenced,
  older, gc_grace, walk, walk_from, walk_album, walk_inside, walk_photos, walk_photo, is_stale_file,
  is_named, of_album, of_photo, of_incoming, add_junk, add_photo,
}
use smugbox.Common.{
  List, Text, Bool, ℕ, map, ◌≡◌, ◌||◌, not, ◌∷◌, true, ◌&&◌, filter, ◌⊎◌, ◌+◌, text_eq, arith, ◌≤◌,
  [], refl, Option, some, none, All, All-append, any, inl, inr, Bool-cases, ap, All-filter_with,
  text_eq_iff, All-filter, ◌∙◌,
}
use smugbox.Db.{PhotoRef}

-- The album `a`, its photo `p`, the rows and the time.
module _ (a p : Text) (refs : List PhotoRef) (now : ℕ) where
  -- Not photos/a and not photos/a/p.
  abbrev pub spares : Place → Bool
  spares (of_album n) = not (text_eq n a)
  spares (of_photo n m) = not (text_eq n a && text_eq m p)
  spares (of_incoming n) = true

  abbrev pub IsSpared : Place → Type 0
  IsSpared q = spares q ≡ true

  -- An entry of that name is a directory, and the photo has a row or the directory is not older than
  -- an hour.
  pub record IsShielded (d : DirEntry) : Type 0 where
    pub folder : d.is_dir ≡ true
    pub needed : (referenced refs a p ≡ true) ⊎ ((t : ℕ) → d.mod_time ≡ some t → now ≤ t + 3600)

  -- What is in the album's directory, if it can still be read.
  abbrev pub Shields : Option (List DirEntry) → Type 0
  Shields none = Unit {0}
  Shields (some ds) =
      (any (is_named p) ds ≡ true) × All (λ d. is_named p d ≡ true → IsShielded d) ds

  pub record IsHome (e : AlbumEntry) : Type 0 where
    pub folder : e.entry.is_dir ≡ true
    pub inside : Shields e.inside

  abbrev doomed : PhotoDir → Bool
  doomed d = not (referenced refs d.album_id d.photo_id) && older now gc_grace d.mod_time

  abbrev IsFine : PhotoDir → Type 0
  IsFine d = doomed d ≡ true → IsSpared d.path

  record IsClear (l : Listing) : Type 0 where
    photos : All IsFine l.photos
    junk : All IsSpared l.junk
    empty_dirs : All (λ d. IsSpared d.path) l.empty_dirs

  add_junk-IsClear : (q : Place) (l : Listing) → IsSpared q → IsClear l → IsClear (add_junk q l)
  add_junk-IsClear q l h c = record {
    photos = c.photos;
    junk = All-append IsSpared l.junk (q ∷ []) c.junk (h, tt);
    empty_dirs = c.empty_dirs;
  }

  -- A path is spared unless it has both names.
  spared_unless :
      (n m : Text) → (text_eq n a ≡ true → text_eq m p ≡ true → ⊥) → IsSpared (of_photo n m)
  spared_unless n m h = elim (Bool-cases (text_eq n a)) [
    | inr other ↦ rw other refl
    | inl same ↦ elim (Bool-cases (text_eq m p)) [
      | inr other ↦ rw (same, other) refl
      | inl too ↦ absurd (h same too)
    ]
  ]

  -- What the entry `m` of the directory `n` must be if it is the photo's.
  abbrev Guarded : Text → Text → Option ℕ → Type 0
  Guarded n m o =
      text_eq n a ≡ true
      → text_eq m p ≡ true
      → (referenced refs a p ≡ true) ⊎ ((t : ℕ) → o ≡ some t → now ≤ t + 3600)

  fine_lem :
      (n m : Text) (t : ℕ)
      → Guarded n m (some t)
      → (not (referenced refs n m) && older now gc_grace t) ≡ true
      → IsSpared (of_photo n m)
  fine_lem n m t h d = spared_unless n m λ e f.
      let known : referenced refs n m ≡ referenced refs a p =
        ap (λ x. referenced refs x m) ((text_eq_iff n a).0 e)
        ∙ ap (λ x. referenced refs a x) ((text_eq_iff m p).0 f) in
      elim (h e f) [
        | inl row ↦ ground (arith, d, known, row)
        | inr young ↦ let early = young t refl in ground (arith, d, early)
      ]

  add_photo-IsClear :
      (n m : Text) (o : Option ℕ) (l : Listing)
      → Guarded n m o
      → IsClear l
      → IsClear (add_photo n m o l)
  add_photo-IsClear n m none l h c = c
  add_photo-IsClear n m (some t) l h c = record {
    photos = All-append IsFine l.photos _ c.photos (fine_lem n m t h, tt);
    junk = c.junk;
    empty_dirs = c.empty_dirs;
  }

  module _ (valid : Text → Bool) (va : valid a ≡ true) (vp : valid p ≡ true) where
    walk_photo-IsClear :
        (n : Text) (d : DirEntry) (l : Listing)
        → (text_eq n a ≡ true → is_named p d ≡ true → IsShielded d)
        → IsClear l
        → IsClear (walk_photo valid n d l)
    unfolding walk_photo
    walk_photo-IsClear n d l h c = elim (Bool-cases (not d.is_dir || not (valid d.name))) [
      | inl junk ↦ rw junk (
          add_junk-IsClear (of_photo n d.name) l
            (spared_unless n d.name λ e f.
              let dir = (h e f).folder in
              let known : valid d.name ≡ true = ap valid ((text_eq_iff d.name p).0 f) ∙ vp in
              ground (arith, junk, dir, known))
            c)
      | inr photo ↦ rw photo (add_photo-IsClear n d.name d.mod_time l (λ e f. (h e f).needed) c)
    ]

    walk_photos-IsClear :
        (n : Text) (ds : List DirEntry) (l : Listing)
        → (text_eq n a ≡ true → All (λ d. is_named p d ≡ true → IsShielded d) ds)
        → IsClear l
        → IsClear (walk_photos valid n ds l)
    unfolding walk_photos
    walk_photos-IsClear n [] l h c = c
    walk_photos-IsClear n (d ∷ ds) l h c =
        walk_photos-IsClear n ds (walk_photo valid n d l) (λ e. (h e).1)
          (walk_photo-IsClear n d l (λ e. (h e).0) c)

    walk_inside-IsClear :
        (n : Text) (time : Option ℕ) (o : Option (List DirEntry)) (l : Listing)
        → (text_eq n a ≡ true → Shields o)
        → IsClear l
        → IsClear (walk_inside valid n time o l)
    walk_inside-IsClear n time none l h c = c
    walk_inside-IsClear n none (some []) l h c = c
    walk_inside-IsClear n (some t) (some []) l h c = record {
      photos = c.photos;
      junk = c.junk;
      empty_dirs = All-append (λ d. IsSpared d.path) l.empty_dirs _ c.empty_dirs (other, tt);
    }
      where
        other : IsSpared (of_album n)
        other = elim (Bool-cases (text_eq n a)) [
          | inr apart ↦ rw apart refl
          | inl same ↦ let full = (h same).0 in absurd (cc)
        ]
    walk_inside-IsClear n none (some (d ∷ ds)) l h c =
        walk_photos-IsClear n (d ∷ ds) l (λ e. (h e).1) c
    walk_inside-IsClear n (some t) (some (d ∷ ds)) l h c =
        walk_photos-IsClear n (d ∷ ds) l (λ e. (h e).1) c

    walk_album-IsClear :
        (e : AlbumEntry) (l : Listing)
        → (is_named a e.entry ≡ true → IsHome e)
        → IsClear l
        → IsClear (walk_album valid e l)
    unfolding walk_album
    walk_album-IsClear e l h c =
        elim (Bool-cases (not e.entry.is_dir || not (valid e.entry.name))) [
          | inl junk ↦ rw junk (add_junk-IsClear (of_album e.entry.name) l (other junk) c)
          | inr album ↦
              rw album
                (walk_inside-IsClear e.entry.name e.entry.mod_time e.inside l (λ s. (h s).inside) c)
        ]
      where
        other :
            (not e.entry.is_dir || not (valid e.entry.name)) ≡ true
            → IsSpared (of_album e.entry.name)
        other junk = elim (Bool-cases (text_eq e.entry.name a)) [
          | inr apart ↦ rw apart refl
          | inl same ↦
              let dir = (h same).folder in
              let known : valid e.entry.name ≡ true =
                ap valid ((text_eq_iff e.entry.name a).0 same) ∙ va in
              absurd (ground (arith, junk, dir, known))
        ]

    walk_from-IsClear :
        (es : List AlbumEntry) (l : Listing)
        → All (λ e. is_named a e.entry ≡ true → IsHome e) es
        → IsClear l
        → IsClear (walk_from valid es l)
    unfolding walk_from
    walk_from-IsClear [] l h c = c
    walk_from-IsClear (e ∷ es) l (k, h) c =
        walk_from-IsClear es (walk_album valid e l) h (walk_album-IsClear e l k c)

    All-paths :
        {A : Type 0} (f : A → Place) (xs : List A)
        → All (λ x. IsSpared (f x)) xs
        → All IsSpared (map f xs)
    All-paths f [] h = tt
    All-paths f (x ∷ xs) (k, h) = (k, All-paths f xs h)

    All-staged :
        (f : DirEntry → Place) (xs : List DirEntry)
        → ((x : DirEntry) → IsSpared (f x))
        → All IsSpared (map f xs)
    All-staged f [] h = tt
    All-staged f (x ∷ xs) h = (h x, All-staged f xs h)

    -- No target is the photo's directory or the album's above it.
    pub gc_targets-IsSpared :
        (listed : List AlbumEntry) (incoming : List DirEntry)
        → All (λ e. is_named a e.entry ≡ true → IsHome e) listed
        → All IsSpared (gc_targets (walk valid listed) refs incoming now)
    unfolding gc_targets orphans stale_incoming walk
    gc_targets-IsSpared listed incoming h =
        let l = walk_from valid listed (record { photos = []; junk = []; empty_dirs = [] }) in
        let c =
          walk_from-IsClear listed (record { photos = []; junk = []; empty_dirs = [] }) h
            (record { photos = tt; junk = tt; empty_dirs = tt }) in
        let photos =
          All-paths (λ d. d.path) (filter doomed l.photos)
            (All-filter_with IsFine (λ d. IsSpared d.path) doomed l.photos (λ d k e. k e)
              c.photos) in
        let empties =
          All-paths (λ d. d.path) (filter (λ d. older now gc_grace d.mod_time) l.empty_dirs)
            (All-filter (λ d. IsSpared d.path) (λ d. older now gc_grace d.mod_time) l.empty_dirs
              c.empty_dirs) in
        let staged =
          All-staged (λ f. of_incoming f.name)
            (filter (λ f. is_stale_file now gc_grace f.mod_time) incoming) (λ x. refl) in
        All-append IsSpared _ _
          (All-append IsSpared _ _ c.junk (All-append IsSpared _ _ photos empties)) staged
