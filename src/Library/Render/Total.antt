-- ===== src/Library/Render/Total.antt =====
-- Render does its work: where nothing fails and the original can be rendered, the photo becomes ready.
use smugbox.Library.Render.Calm.{IsRenderable}
use smugbox.Library.Render.Planned.{Planned}
use smugbox.Library.Render.Marked.{marked}
use smugbox.World.{World}
use smugbox.Exec.{ok}
use smugbox.Exec.Runs.{Runs}
use smugbox.Db.{Photo, Tables}
use smugbox.Db.Photos.{get_photo, mark_variants_ready, is_photo}
use smugbox.Media.{Tools}
use smugbox.Common.{
  List, ◌≡◌, Text, Bool, [], subst, true, some, ◌∷◌, sym, arith, refl, find?, text_eq_refl, any,
  Bool-cases, inl, inr,
}

module _ (tools : Tools) (p : Photo) (content : Text) where
  module _ (ready : IsRenderable tools p content) (t : Tables) where
    module _ (hit : (mark_variants_ready p.album_id p.id p.content_hash t).0 ≡ true) where
      -- Nothing is left to fail, and the row is marked.
      abbrev Done : World → Type 0
      Done w = w.tables ≡ marked tools p t

any-found :
    (f g : Photo → Bool) (ps : List Photo) (p : Photo)
    → find? f ps ≡ some p
    → g p ≡ true
    → any g ps ≡ true
any-found f g [] p e h = absurd (cc)
any-found f g (q ∷ ps) p e h = elim (Bool-cases (f q)) [
  | inl here ↦
      let same : q ≡ p = ground (arith, here, e) in
      let holds : g q ≡ true = subst (λ x. g x ≡ true) (sym same) h in rw holds refl
  | inr other ↦ ground (arith, other, e, any-found f g ps p)
]

pub get_photo-hit :
    (a i : Text) (t : Tables) (p : Photo)
    → get_photo a i t ≡ ok p
    → (mark_variants_ready p.album_id p.id p.content_hash t).0 ≡ true
unfolding get_photo mark_variants_ready
get_photo-hit a i t p e =
    any-found (is_photo a i) _ t.photos p (ground arith)
      (rw (text_eq_refl p.album_id, text_eq_refl p.id, text_eq_refl p.content_hash) refl)
