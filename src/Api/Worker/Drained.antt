-- ===== src/Api/Worker/Drained.antt =====
-- What a drain of the variant worker leaves: no pending photo is passed over.
use smugbox.Api.Worker.{failure_key, noted, try_photo, drain_photos}
use smugbox.Library.Render.{render}
use smugbox.Library.Render.Marked.{marked}
use smugbox.Library.Render.Ready.{render-IsServed}
use smugbox.Library.Render.Honest.{render_ok-marked}
use smugbox.Db.{Photo, Tables, one_row}
use smugbox.Db.Photos.{get_photo, is_photo, set_ready, mark_variants_ready}
use smugbox.World.{World}
use smugbox.Media.{Tools}
use smugbox.Exec.{Result, ok, err, attempt}
use smugbox.Exec.Runs.{Runs, Runs-bind, Runs-if, Runs-return, Runs_weaken, Post}
use smugbox.Common.{
  ℕ, Text, List, Bool, ◌≡◌, ◌⊎◌, inr, inl, any, true, find?, ◌&&◌, if◌then◌else◌, ◌∙◌, subst,
  text_eq, some, text_eq_refl, sym, false, map, arith, refl, ◌∷◌, ap, Bool-cases, [], All, All-map,
  length, ◌≤◌, suc, zero,
}

abbrev pub Never : World → Type 0
Never w = ⊥

abbrev pub known_failure : List Text → Photo → Bool
known_failure failed p = any (λ k. text_eq k (failure_key p)) failed

-- The row as it was listed, or marked ready since.
abbrev pub IsReady : Tables → Photo → Type 0
IsReady t p = get_photo p.album_id p.id t ≡ ok (set_ready true p)

abbrev pub Stands : Tables → Photo → Type 0
Stands t p = (get_photo p.album_id p.id t ≡ ok p) ⊎ IsReady t p

abbrev pub Settled : Tables → List Text → Photo → Type 0
Settled t failed p = IsReady t p ⊎ (known_failure failed p ≡ true)

-- A mark in the list of rows does not move them.
find?-mark :
    (a i : Text) (hit : Photo → Bool) (ps : List Photo) (p : Photo)
    → find? (is_photo a i) ps ≡ some p
    → find? (is_photo a i) (map (λ q. if hit q then set_ready true q else q) ps)
      ≡ some (if hit p then set_ready true p else p)
find?-mark a i hit [] p e = absurd (cc)
find?-mark a i hit (q ∷ ps) p e = elim (Bool-cases (is_photo a i q)) [
  | inl here ↦ elim (Bool-cases (hit q)) [
    | inl set ↦ ground (arith, here, set, e)
    | inr left ↦ ground (arith, here, left, e)
  ]
  | inr other ↦ elim (Bool-cases (hit q)) [
    | inl set ↦ ground (arith, other, set, e, find?-mark a i hit ps p)
    | inr left ↦ ground (arith, other, left, e, find?-mark a i hit ps p)
  ]
]

module _ (tools : Tools) where
  abbrev hits : Photo → Photo → Bool
  hits q p = is_photo q.album_id q.id p && text_eq p.content_hash q.content_hash

  get_photo-marked :
      (a i : Text) (q p : Photo) (t : Tables)
      → get_photo a i t ≡ ok p
      → get_photo a i (marked tools q t) ≡ ok (if hits q p then set_ready true p else p)
  unfolding get_photo mark_variants_ready
  get_photo-marked a i q p t e =
      let found : find? (is_photo a i) t.photos ≡ some p = ground (arith, e) in
      ap one_row (find?-mark a i (hits q) t.photos p found)

  IsReady-marked : (q p : Photo) (t : Tables) → IsReady t p → IsReady (marked tools q t) p
  IsReady-marked q p t e =
      get_photo-marked p.album_id p.id q (set_ready true p) t e ∙ same (hits q (set_ready true p))
    where
      same :
          (b : Bool) → ok (if b then set_ready true p else set_ready true p) ≡ ok (set_ready true p)
      same true = refl
      same false = refl

  Stands-marked : (q p : Photo) (t : Tables) → Stands t p → Stands (marked tools q t) p
  Stands-marked q p t (inr e) = inr (IsReady-marked q p t e)
  Stands-marked q p t (inl e) = either (hits q p) (get_photo-marked p.album_id p.id q p t e)
    where
      either :
          (b : Bool)
          → get_photo p.album_id p.id (marked tools q t) ≡ ok (if b then set_ready true p else p)
          → Stands (marked tools q t) p
      either true e = inr e
      either false e = inl e

  self-marked :
      (p : Photo) (t : Tables) → get_photo p.album_id p.id t ≡ ok p → IsReady (marked tools p t) p
  self-marked p t e =
      get_photo-marked p.album_id p.id p p t e
      ∙ rw (text_eq_refl p.album_id, text_eq_refl p.id, text_eq_refl p.content_hash) refl

  -- The tables as they were, or with one more row marked.
  abbrev Moved : Photo → Tables → Tables → Type 0
  Moved q t t' = (t' ≡ t) ⊎ (t' ≡ marked tools q t)

  Stands-Moved : (q p : Photo) (t t' : Tables) → Moved q t t' → Stands t p → Stands t' p
  Stands-Moved q p t t' (inl e) h = subst (λ x. Stands x p) (sym e) h
  Stands-Moved q p t t' (inr e) h = subst (λ x. Stands x p) (sym e) (Stands-marked q p t h)

  IsReady-Moved : (q p : Photo) (t t' : Tables) → Moved q t t' → IsReady t p → IsReady t' p
  IsReady-Moved q p t t' (inl e) h = subst (λ x. IsReady x p) (sym e) h
  IsReady-Moved q p t t' (inr e) h = subst (λ x. IsReady x p) (sym e) (IsReady-marked q p t h)

  moved : {A B C : Type 0} → A ⊎ (B × C) → A ⊎ B
  moved (inl x) = inl x
  moved (inr x) = inr x.0

  render-Moved :
      (p : Photo) (w : World)
      → Stands w.tables p
      → Moved p w.tables (render tools p.album_id p.id w).1.tables
  render-Moved p w (inl e) = moved (render-IsServed tools p.album_id p.id w p e)
  render-Moved p w (inr e) = moved (render-IsServed tools p.album_id p.id w (set_ready true p) e)

  -- Failures are not forgotten within a drain.
  abbrev Grows : List Text → List Text → Type 0
  Grows failed failed' =
      (p : Photo) → known_failure failed p ≡ true → known_failure failed' p ≡ true

  Settled-Moved :
      (q p : Photo) (t t' : Tables) (failed failed' : List Text)
      → Moved q t t'
      → Grows failed failed'
      → Settled t failed p
      → Settled t' failed' p
  Settled-Moved q p t t' failed failed' m g (inl e) = inl (IsReady-Moved q p t t' m e)
  Settled-Moved q p t t' failed failed' m g (inr k) = inr (g p k)

  noted-Grows :
      (p : Photo) (failed : List Text) (r : Result (Unit {0})) → Grows failed (noted p failed r)
  noted-Grows p failed (ok u) q h = h
  noted-Grows p failed (err e) q h = ground (arith, h)

  -- What one round leaves.
  record IsRound (p : Photo) (t : Tables) (failed failed' : List Text) (t' : Tables) : Type 0 where
    move : Moved p t t'
    grow : Grows failed failed'
    settled : Settled t' failed' p

  rendered :
      (p : Photo) (failed : List Text) (w : World) (r : Result (Unit {0}))
      → Stands w.tables p
      → p.variants_ready ≡ false
      → (render tools p.album_id p.id w).0 ≡ r
      → IsRound p w.tables failed (noted p failed r) (render tools p.album_id p.id w).1.tables
  rendered p failed w (err e) h pending o = record {
    move = render-Moved p w h;
    grow = noted-Grows p failed (err e);
    settled = inr (rw (text_eq_refl (failure_key p)) refl);
  }
  rendered p failed w (ok u) (inr e) pending o = record {
    move = render-Moved p w (inr e);
    grow = λ q k. k;
    settled = inl (
        IsReady-Moved p p w.tables (render tools p.album_id p.id w).1.tables
          (render-Moved p w (inr e)) e);
  }
  rendered p failed w (ok u) (inl e) pending o =
      let m = render_ok-marked tools w p e pending o in
      record {
        move = inr m;
        grow = λ q k. k;
        settled = inl (subst (λ t. IsReady t p) (sym m) (self-marked p w.tables e));
      }

  try_photo-IsRound :
      (p : Photo) (failed : List Text) (t : Tables)
      → p.variants_ready ≡ false
      → Runs
          (λ w. (w.tables ≡ t) × Stands t p)
          (try_photo tools p failed)
          (λ f w. IsRound p t failed f w.tables)
          Never
  unfolding try_photo
  try_photo-IsRound p failed t pending =
      Runs-if (known_failure failed p) _ _
        (λ k.
          Runs-return failed (λ w h. record { move = inl h.0; grow = λ q g. g; settled = inr k }))
        (λ k.
          Runs-bind (λ r w. IsRound p t failed (noted p failed r) w.tables)
            (attempt (render tools p.album_id p.id)) _
            (record {
              run = λ w h.
                  subst
                    (λ x.
                      IsRound p x failed (noted p failed (render tools p.album_id p.id w).0)
                        (render tools p.album_id p.id w).1.tables)
                    h.0
                    (rendered p failed w (render tools p.album_id p.id w).0
                      (subst (λ x. Stands x p) (sym h.0) h.1) pending refl);
            })
            λ r. Runs-return (noted p failed r) (λ w h. h))

  -- The photos that are still to come, and those that are done.
  pub record IsUnderWay (ps ds : List Photo) (failed : List Text) (t : Tables) : Type 0 where
    pub ahead : All (Stands t) ps
    pub behind : All (Settled t failed) ds

  after_round :
      (p : Photo) (ps ds : List Photo) (t t' : Tables) (failed failed' : List Text)
      → IsUnderWay (p ∷ ps) ds failed t
      → IsRound p t failed failed' t'
      → IsUnderWay ps (p ∷ ds) failed' t'
  after_round p ps ds t t' failed failed' u r = record {
    ahead = All-map (λ q. Stands-Moved p q t t' r.move) ps u.ahead.1;
    behind =
        (r.settled, All-map (λ q. Settled-Moved p q t t' failed failed' r.move r.grow) ds u.behind);
  }

  pub drain_photos-Settled :
      (ps ds : List Photo) (live : ℕ) (failed : List Text)
      → length ps ≤ live
      → All (λ p. p.variants_ready ≡ false) ps
      → Runs
          (λ w. IsUnderWay ps ds failed w.tables)
          (drain_photos tools ps live failed)
          (λ f w. All (Settled w.tables f) ps × All (Settled w.tables f) ds)
          Never
  unfolding drain_photos
  drain_photos-Settled [] ds live failed l a = Runs-return failed (λ w h. (tt, h.behind))
  drain_photos-Settled (p ∷ ps) ds zero failed l a = absurd (omega (arith, l))
  drain_photos-Settled (p ∷ ps) ds (suc live) failed l (pending, a) =
      Runs-bind (λ f w. IsUnderWay ps (p ∷ ds) f w.tables) _ _ (record { run = λ w h. round w h })
        λ f.
          Runs_weaken (λ g w h. ((h.1.0, h.0), h.1.1)) (λ w h. h)
            (drain_photos-Settled ps (p ∷ ds) live f (omega (arith, l)) a)
    where
      round :
          (w : World)
          → IsUnderWay (p ∷ ps) ds failed w.tables
          → Post
              (λ f v. IsUnderWay ps (p ∷ ds) f v.tables)
              Never
              (try_photo tools p failed w).0
              (try_photo tools p failed w).1
      round w h =
          (Runs_weaken (λ f v r. after_round p ps ds w.tables v.tables failed f h r) (λ v n. n)
              (try_photo-IsRound p failed w.tables pending)).run
            w (refl, h.ahead.0)
