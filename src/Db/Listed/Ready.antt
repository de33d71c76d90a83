-- ===== src/Db/Listed/Ready.antt =====
-- Only photos that are ready are listed, counted, or chosen as a cover.
use smugbox.Db.Listed.{list_ready_photos, is_ready_in, photo_before, resolve_cover, first_id}
use smugbox.Db.{Photo, Tables}
use smugbox.Common.{
  Text, Bool, List, All, ◌≡◌, true, ◌≢◌, any, All-sort_by, filter, ◌&&◌, ◌∷◌, [], Bool-cases,
  text_eq, arith, not, inl, text_eq_refl, is_empty, inr, refl,
}

pub list_ready_photos-All :
    (album_id : Text) (t : Tables)
    → All (λ p. is_ready_in album_id p ≡ true) (list_ready_photos album_id t)
unfolding list_ready_photos
list_ready_photos-All album_id t =
    All-sort_by photo_before (λ p. is_ready_in album_id p ≡ true) _
      (passed (is_ready_in album_id) t.photos)
  where
    passed : (p : Photo → Bool) (ps : List Photo) → All (λ q. p q ≡ true) (filter p ps)
    passed p [] = tt
    passed p (q ∷ ps) = elim (Bool-cases (p q)) [
      | inl here ↦ rw here (here, passed p ps)
      | inr other ↦ rw other (passed p ps)
    ]

any-first_id :
    (ps : List Photo) → first_id ps ≢ [] → any (λ p. text_eq p.id (first_id ps)) ps ≡ true
any-first_id [] h = absurd (h refl)
any-first_id (p ∷ ps) h = ground (arith, text_eq_refl p.id)

-- The cover that is shown is the id of one of the photos.
pub resolve_cover-any :
    (chosen : Text) (ps : List Photo)
    → resolve_cover chosen ps ≢ []
    → any (λ p. text_eq p.id (resolve_cover chosen ps)) ps ≡ true
unfolding resolve_cover
resolve_cover-any chosen ps h =
    elim (Bool-cases (not (is_empty chosen) && any (λ p. text_eq p.id chosen) ps)) [
      | inl kept ↦ ground (arith, kept)
      | inr other ↦ ground (arith, other, any-first_id ps, h)
    ]
