-- ===== src/Db/Photos/Order.antt =====
-- What SetPhotoOrder does, against a description without a loop.
use smugbox.Db.Photos.{at_photo, set_sort, order_from, set_photo_order}
use smugbox.Db.{Photo, Tables}
use smugbox.Common.{
  ℕ, Text, Option, List, none, if◌then◌else◌, ◌≡◌, [], suc, some, ◌∷◌, text_eq, map, arith, length,
  sym, ap, refl, ◌+◌, ◌∙◌, Bool-cases, inl, Option-cases, inr,
}

-- The position of the last time that an id is listed, where the first one listed has position i + 1.
abbrev pub last_position : ℕ → Text → List Text → Option ℕ
last_position i id [] = none
last_position i id (x ∷ xs) = elim (last_position (suc i) id xs) [
  | none ↦ if text_eq id x then some (suc i) else none
  | some n ↦ some n
]

abbrev pub position : ℕ → Option ℕ → ℕ
position rest none = rest
position rest (some n) = n

-- A photo of the album gets its position, and one that is not listed the place behind all of them.
abbrev pub placed : Text → List Text → Photo → Photo
placed album_id ids p =
    if text_eq p.album_id album_id
    then set_sort (position (length ids + 1) (last_position 0 p.id ids)) p
    else p

abbrev ordered_by : Option ℕ → Photo → Photo
ordered_by none p = p
ordered_by (some n) p = set_sort n p

abbrev ordered : Text → ℕ → List Text → Photo → Photo
ordered album_id i ids p =
    if text_eq p.album_id album_id then ordered_by (last_position i p.id ids) p else p

map-map_same :
    (f g h : Photo → Photo) (ps : List Photo)
    → ((p : Photo) → f (g p) ≡ h p)
    → map f (map g ps) ≡ map h ps
map-map_same f g h [] e = refl
map-map_same f g h (p ∷ ps) e = rw (e p, map-map_same f g h ps e) refl

map-same : (f : Photo → Photo) (ps : List Photo) → ((p : Photo) → f p ≡ p) → map f ps ≡ ps
map-same f [] e = refl
map-same f (p ∷ ps) e = rw (e p, map-same f ps e) refl

ordered-nil : (album_id : Text) (i : ℕ) (p : Photo) → ordered album_id i [] p ≡ p
ordered-nil album_id i p = ground arith

-- One round of the loop.
ordered-at_photo :
    (album_id : Text) (i : ℕ) (id : Text) (ids : List Text) (p : Photo)
    → ordered album_id (suc i) ids (at_photo album_id id (set_sort (suc i)) p)
      ≡ ordered album_id i (id ∷ ids) p
ordered-at_photo album_id i id ids p = elim (Bool-cases (text_eq p.album_id album_id)) [
  | inl mine ↦ elim (Bool-cases (text_eq p.id id)) [
    | inl here ↦ elim (Option-cases (last_position (suc i) p.id ids)) [
      | inl unlisted ↦ rw (mine, here) (rw (mine, unlisted, here) refl)
      | inr (n, later) ↦ rw (mine, here) (rw (mine, later) refl)
    ]
    | inr other ↦ elim (Option-cases (last_position (suc i) p.id ids)) [
      | inl unlisted ↦ rw (mine, other) (rw (mine, unlisted, other) refl)
      | inr (n, later) ↦ rw (mine, other) (rw (mine, later) refl)
    ]
  ]
  | inr foreign ↦ rw foreign (rw foreign refl)
]

order_from-ordered :
    (album_id : Text) (i : ℕ) (ids : List Text) (ps : List Photo)
    → order_from album_id i ids ps ≡ map (ordered album_id i ids) ps
unfolding order_from
order_from-ordered album_id i [] ps =
    sym (map-same (ordered album_id i []) ps (ordered-nil album_id i))
order_from-ordered album_id i (id ∷ ids) ps =
    order_from-ordered album_id (suc i) ids (map (at_photo album_id id (set_sort (suc i))) ps)
    ∙ map-map_same (ordered album_id (suc i) ids) (at_photo album_id id (set_sort (suc i)))
        (ordered album_id i (id ∷ ids)) ps (ordered-at_photo album_id i id ids)

ordered-behind :
    (album_id : Text) (ids : List Text) (p : Photo)
    → ordered album_id 0 ids
        (if text_eq p.album_id album_id then set_sort (length ids + 1) p else p)
      ≡ placed album_id ids p
ordered-behind album_id ids p = elim (Bool-cases (text_eq p.album_id album_id)) [
  | inl mine ↦ elim (Option-cases (last_position 0 p.id ids)) [
    | inl unlisted ↦ rw mine (rw (mine, unlisted) refl)
    | inr (n, listed) ↦ rw mine (rw (mine, listed) refl)
  ]
  | inr foreign ↦ rw foreign (rw foreign refl)
]

-- SetPhotoOrder gives each photo of the album its position in the list, the last one where it is listed
-- more than once, and puts those that are not listed behind all of them. Nothing else changes.
pub set_photo_order-placed :
    (album_id : Text) (ids : List Text) (t : Tables)
    → set_photo_order album_id ids t ≡ record t { photos = map (placed album_id ids) t.photos }
unfolding set_photo_order
set_photo_order-placed album_id ids t =
    ap (λ ps. record t { photos = ps })
      (order_from-ordered album_id 0 ids (
          map (λ p. if text_eq p.album_id album_id then set_sort (length ids + 1) p else p)
            t.photos)
        ∙ map-map_same (ordered album_id 0 ids) _ (placed album_id ids) t.photos
            (ordered-behind album_id ids))
