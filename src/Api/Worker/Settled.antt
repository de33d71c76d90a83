-- ===== src/Api/Worker/Settled.antt =====
-- A whole drain of the variant worker, from the listing on.
use smugbox.Api.Worker.{drain_photos, drain}
use smugbox.Api.Worker.Drained.{Never, Stands, Settled, drain_photos-Settled}
use smugbox.Api.Keys.Known.{fails_first}
use smugbox.Db.{Photo, Tables, one_row}
use smugbox.Db.Photos.{get_photo, is_photo}
use smugbox.Db.Listed.{list_photos_pending_variants}
use smugbox.Db.Consistent.{IsConsistent, PhotoApart}
use smugbox.World.{World, query, io}
use smugbox.Media.{Tools}
use smugbox.Exec.{Result, ok}
use smugbox.Exec.Runs.{Runs_weaken, Post}
use smugbox.Common.{
  ℕ, Text, List, find?, All, Pairwise, Bool, length, ◌≡◌, some, ◌∷◌, filter, false, All-sort_by,
  ◌≤◌, arith, text_eq_refl, true, All-of_filter, All-filter, All-map, text_eq_iff, Bool-cases, not,
  length-sort_by, [], inl, length-filter, All-of_sort_by, refl, subst, ap, if◌then◌else◌, inr, sym,
}

-- Where ids are unique, a lookup finds each row itself.
abbrev Found : List Photo → Photo → Type 0
Found rows p = find? (is_photo p.album_id p.id) rows ≡ some p

Found-behind :
    (r : Photo) (rows qs : List Photo)
    → All (PhotoApart r) qs
    → All (Found rows) qs
    → All (Found (r ∷ rows)) qs
Found-behind r rows [] a h = tt
Found-behind r rows (q ∷ qs) (a, as_) (h, hs) =
    let other : is_photo q.album_id q.id r ≡ false = ground (arith, a.ids, text_eq_iff r.id q.id) in
    (rw other h, Found-behind r rows qs as_ hs)

All-Found : (rows : List Photo) → Pairwise PhotoApart rows → All (Found rows) rows
All-Found [] h = tt
All-Found (r ∷ rows) (a, h) = (
  rw (text_eq_refl r.album_id, text_eq_refl r.id) refl,
  Found-behind r rows rows a (All-Found rows h),
)

module _ {A : Type 0} (P : A → Type 0) where
  All-kept : (p : A → Bool) (xs : List A) → All P (filter p xs) → All (λ x. p x ≡ true → P x) xs
  All-kept p [] h = tt
  All-kept p (x ∷ xs) h = elim (Bool-cases (p x)) [
    | inl pass ↦
        let (q, k) = subst (λ b. All P (if b then x ∷ filter p xs else filter p xs)) pass h in
        ((λ e. q), All-kept p xs k)
    | inr fail ↦
        let k = subst (λ b. All P (if b then x ∷ filter p xs else filter p xs)) fail h in
        ((λ e. absurd (ground (arith, e, fail))), All-kept p xs k)
  ]

module _ (tools : Tools) where
  pending-All : (t : Tables) → All (λ p. p.variants_ready ≡ false) (list_photos_pending_variants t)
  unfolding list_photos_pending_variants
  pending-All t =
      All-sort_by _ (λ p. p.variants_ready ≡ false) _
        (All-of_filter (λ p. p.variants_ready ≡ false) (λ p. not p.variants_ready) t.photos
          (λ p e. ground (arith, e)))

  standing : (t : Tables) → IsConsistent t → All (Stands t) (list_photos_pending_variants t)
  unfolding list_photos_pending_variants get_photo
  standing t c = All-sort_by _ (Stands t) _ (
      All-filter (Stands t) (λ p. not p.variants_ready) t.photos
        (All-map (λ p e. inl (ap one_row e)) t.photos (All-Found t.photos c.photos_apart)))

  length-pending : (t : Tables) → length (list_photos_pending_variants t) ≤ length t.photos
  unfolding list_photos_pending_variants
  length-pending t = omega (
    arith,
    length-sort_by _ (filter (λ p. not p.variants_ready) t.photos),
    length-filter (λ p. not p.variants_ready) t.photos,
  )

  unlisted :
      (t t' : Tables) (f : List Text)
      → All (Settled t' f) (list_photos_pending_variants t)
      → All (λ p. p.variants_ready ≡ false → Settled t' f p) t.photos
  unfolding list_photos_pending_variants
  unlisted t t' f h =
      All-map (λ p k e. k (ground (arith, e))) t.photos
        (All-kept (Settled t' f) (λ p. not p.variants_ready) t.photos
          (All-of_sort_by _ (Settled t' f) _ h))

  After : World → ℕ → List Text → Result (List Text) → World → Type 0
  After w live failed r v =
      Post (λ f v. All (λ p. p.variants_ready ≡ false → Settled v.tables f p) w.tables.photos) Never
        r v

  worked :
      (w v : World) (live : ℕ) (failed : List Text)
      → IsConsistent w.tables
      → length w.tables.photos ≤ live
      → v.tables ≡ w.tables
      → After w live failed
          (drain_photos tools (list_photos_pending_variants w.tables) live failed v).0
          (drain_photos tools (list_photos_pending_variants w.tables) live failed v).1
  unfolding After
  worked w v live failed c l e =
      (Runs_weaken (λ f v h. unlisted w.tables v.tables f h.0) (λ v n. n)
          (drain_photos-Settled tools (list_photos_pending_variants w.tables) [] live failed
            (omega (arith, l, length-pending w.tables)) (pending-All w.tables))).run
        v
        (record {
          ahead =
              subst (λ t. All (Stands t) (list_photos_pending_variants w.tables)) (sym e)
                (standing w.tables c);
          behind = tt;
        })

  listed :
      (fs : List Bool) (w : World) (live : ℕ) (failed : List Text)
      → IsConsistent w.tables
      → length w.tables.photos ≤ live
      → fails_first (record w { faults = fs }) ≡ false
      → After w live failed
          (drain tools live failed (record w { faults = fs })).0
          (drain tools live failed (record w { faults = fs })).1
  unfolding drain query io
  listed [] w live failed c l e = worked w (record w { faults = [] }) live failed c l refl
  listed (true ∷ fs) w live failed c l e = absurd (cc)
  listed (false ∷ fs) w live failed c l e = worked w (record w { faults = fs }) live failed c l refl

-- From consistent tables, and unless the queue cannot be read or the server stops before the last photo, a
-- drain passes no photo over: whatever fails in rendering, each photo that was pending is ready
-- afterwards, or remembered as failed.
pub drain-Settled :
    (tools : Tools) (live : ℕ) (failed f : List Text) (w : World)
    → IsConsistent w.tables
    → fails_first w ≡ false
    → length w.tables.photos ≤ live
    → (drain tools live failed w).0 ≡ ok f
    → All
        (λ p. p.variants_ready ≡ false → Settled (drain tools live failed w).1.tables f p)
        w.tables.photos
unfolding After
drain-Settled tools live failed f w c calm l e =
    subst (λ r. After tools w live failed r (drain tools live failed w).1) e
      (listed tools w.faults w live failed c l calm)
