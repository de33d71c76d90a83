-- ===== src/Storage/Listing/Spared.antt =====
-- What a run of gc leaves on the disk.
use smugbox.Storage.Listing.{
  Place, DirEntry, AlbumEntry, gc, remove_targets, remove_all, remove_parent, is_named, is_bare,
  without, of_album, of_photo, of_incoming,
}
use smugbox.Storage.Listing.Targets.{IsSpared, IsHome, gc_targets-IsSpared}
use smugbox.Common.{
  List, Text, Bool, ℕ, map, ◌≡◌, not, false, ◌∷◌, true, ◌&&◌, filter, text_eq, arith, [], refl,
  Option, some, none, All, any, inl, inr, Bool-cases, sym, if◌then◌else◌, text_eq_iff, ◌∙◌,
}
use smugbox.Db.{PhotoRef}

abbrev has : Text → Option (List DirEntry) → Bool
has p none = false
has p (some ds) = any (is_named p) ds

-- The directory photos/a/p is there.
abbrev pub stands : Text → Text → List AlbumEntry → Bool
stands a p disk = any (λ e. is_named a e.entry && has p e.inside) disk

any-kept :
    {A : Type 0} (h q : A → Bool) (xs : List A)
    → ((x : A) → h x ≡ true → q x ≡ true)
    → any h xs ≡ true
    → any h (filter q xs) ≡ true
any-kept h q [] f e = e
any-kept h q (x ∷ xs) f e = elim (Bool-cases (h x)) [
  | inl hit ↦ rw (f x hit, hit) refl
  | inr miss ↦ ground (arith, miss, e, any-kept h q xs f)
]

any-moved :
    {A : Type 0} (h : A → Bool) (f : A → A) (xs : List A)
    → ((x : A) → h x ≡ true → h (f x) ≡ true)
    → any h xs ≡ true
    → any h (map f xs) ≡ true
any-moved h f [] k e = e
any-moved h f (x ∷ xs) k e = elim (Bool-cases (h x)) [
  | inl hit ↦ rw (k x hit) refl
  | inr miss ↦ ground (arith, miss, e, any-moved h f xs k)
]

-- One name is not two.
apart : (s n m : Text) → not (text_eq n m) ≡ true → text_eq s m ≡ true → not (text_eq s n) ≡ true
apart s n m h e = elim (Bool-cases (text_eq s n)) [
  | inr other ↦ rw other refl
  | inl same ↦
      let one : n ≡ m = sym ((text_eq_iff s n).0 same) ∙ (text_eq_iff s m).0 e in
      absurd (ground (arith, h, (text_eq_iff n m).1 one))
]

module _ (a p : Text) where
  has-without :
      (m : Text) (o : Option (List DirEntry))
      → not (text_eq m p) ≡ true
      → has p o ≡ true
      → has p (without m o) ≡ true
  has-without m none h e = e
  has-without m (some ds) h e =
      any-kept (is_named p) (λ d. not (is_named m d)) ds (λ d k. apart d.name m p h k) e

  bare-lem : (o : Option (List DirEntry)) → has p o ≡ true → is_bare o ≡ false
  bare-lem none h = refl
  bare-lem (some []) h = absurd (cc)
  bare-lem (some (d ∷ ds)) h = refl

  abbrev hit : AlbumEntry → Bool
  hit e = is_named a e.entry && has p e.inside

  hit-named : (e : AlbumEntry) → hit e ≡ true → text_eq e.entry.name a ≡ true
  hit-named e h = ground (arith, h)

  hit-has : (e : AlbumEntry) → hit e ≡ true → has p e.inside ≡ true
  hit-has e h = ground (arith, h)

  module _ (refs : List PhotoRef) (now : ℕ) where
    stands-remove_all :
        (q : Place) (disk : List AlbumEntry)
        → IsSpared a p refs now q
        → stands a p disk ≡ true
        → stands a p (remove_all q disk) ≡ true
    unfolding remove_all
    stands-remove_all (of_incoming n) disk h e = e
    stands-remove_all (of_album n) disk h e =
        any-kept hit (λ e. not (is_named n e.entry)) disk
          (λ e k. apart e.entry.name n a h (hit-named e k)) e
    stands-remove_all (of_photo n m) disk h e =
        any-moved hit
          (λ e. if is_named n e.entry then record e { inside = without m e.inside } else e) disk
          moved e
      where
        moved :
            (e : AlbumEntry)
            → hit e ≡ true
            → hit (if is_named n e.entry then record e { inside = without m e.inside } else e)
              ≡ true
        moved e k = elim (Bool-cases (is_named n e.entry)) [
          | inr other ↦ rw other k
          | inl same ↦
              let one : n ≡ a =
                sym ((text_eq_iff e.entry.name n).0 same)
                ∙ (text_eq_iff e.entry.name a).0 (hit-named e k) in
              let other : not (text_eq m p) ≡ true = ground (arith, h, (text_eq_iff n a).1 one) in
              rw (same, hit-named e k, has-without m e.inside other (hit-has e k)) refl
        ]

    stands-remove_parent :
        (q : Place) (disk : List AlbumEntry)
        → stands a p disk ≡ true
        → stands a p (remove_parent q disk) ≡ true
    unfolding remove_parent
    stands-remove_parent (of_incoming n) disk e = e
    stands-remove_parent (of_album n) disk e = e
    stands-remove_parent (of_photo n m) disk e =
        any-kept hit (λ e. not (is_named n e.entry && is_bare e.inside)) disk
          (λ e k. ground (arith, bare-lem e.inside (hit-has e k))) e

    stands-remove_targets :
        (fails : List Bool) (qs : List Place) (disk : List AlbumEntry)
        → All (IsSpared a p refs now) qs
        → stands a p disk ≡ true
        → stands a p (remove_targets fails qs disk) ≡ true
    unfolding remove_targets
    stands-remove_targets fails [] disk h e = e
    stands-remove_targets [] (q ∷ qs) disk (k, h) e =
        stands-remove_targets [] qs _ h (stands-remove_parent q _ (stands-remove_all q disk k e))
    stands-remove_targets (true ∷ fails) (q ∷ qs) disk h e = e
    stands-remove_targets (false ∷ fails) (q ∷ qs) disk (k, h) e =
        stands-remove_targets fails qs _ h (stands-remove_parent q _ (stands-remove_all q disk k e))

-- A run of gc removes neither the directory of a photo nor the album's above it, whatever else is on the
-- disk, whatever RemoveAll fails, and whatever the server has added since Walk: if both names are
-- uuids, and every entry of these names that Walk reads is a directory, the album's with the photo's in
-- it, and the photo has a row or its directory is not older than an hour, then the photo's directory is
-- there after gc if it was there when the removal began.
pub gc-stands :
    (valid : Text → Bool) (dry_run : Bool) (refs : List PhotoRef) (incoming : List DirEntry)
    (now : ℕ) (fails : List Bool) (listed disk : List AlbumEntry) (a p : Text)
    → valid a ≡ true
    → valid p ≡ true
    → All (λ e. is_named a e.entry ≡ true → IsHome a p refs now e) listed
    → stands a p disk ≡ true
    → stands a p (gc valid dry_run refs incoming now fails listed disk) ≡ true
unfolding gc
gc-stands valid true refs incoming now fails listed disk a p va vp h e = e
gc-stands valid false refs incoming now fails listed disk a p va vp h e =
    stands-remove_targets a p refs now fails _ disk
      (gc_targets-IsSpared a p refs now valid va vp listed incoming h) e
