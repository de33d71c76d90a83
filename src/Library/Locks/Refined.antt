-- ===== src/Library/Locks/Refined.antt =====
-- What the photo locks promise, with no map, no objects and no counters, and that they keep it.
use smugbox.Library.Locks.{
  Call, Stage, System, Step, Reach, set_locked, waiting, holding, leaving, enter, acquire, release,
  leave, ref,
}
use smugbox.Library.Locks.Invariant.{
  on, holds, is_holding, flag, count, Reach-IsCounted, unheld_free, free_unheld,
}
use mathlib.Core.List.{map-append}
use smugbox.Common.{
  Text, List, map, ◌≡◌, ◌≤◌, ◌<◌, ◌↔◌, arith, ◌∷◌, ◌++◌, text_eq, ◌&&◌, [], refl, Bool, ap, ◌∙◌,
  Option-cases, is_some, true, inl, false, inr,
}

-- Who uses a photo, and how far he is.
pub record Use : Type 0 where
  pub photo : Text
  pub stage : Stage

-- The promise: a photo is taken only while nobody holds it.
pub data Promised (us : List Use) : List Use → Type 0 where
  come : (photo : Text) → Promised us (record { photo = photo; stage = waiting } ∷ us)
  take_it :
      (xs ys : List Use) (photo : Text) {vs : List Use}
      → us ≡ xs ++ record { photo = photo; stage = waiting } ∷ ys
      → count (λ u. text_eq u.photo photo && is_holding u.stage) us ≡ 0
      → vs ≡ xs ++ record { photo = photo; stage = holding } ∷ ys
      → Promised us vs
  give_back :
      (xs ys : List Use) (photo : Text) {vs : List Use}
      → us ≡ xs ++ record { photo = photo; stage = holding } ∷ ys
      → vs ≡ xs ++ record { photo = photo; stage = leaving } ∷ ys
      → Promised us vs
  go :
      (xs ys : List Use) (photo : Text) {vs : List Use}
      → us ≡ xs ++ record { photo = photo; stage = leaving } ∷ ys
      → vs ≡ xs ++ ys
      → Promised us vs

abbrev pub use_of : Call → Use
use_of c = record { photo = c.photo; stage = c.stage }

abbrev pub view : System → List Use
view s = map use_of s.calls

view-split :
    (xs ys : List Call) (c : Call)
    → map use_of (xs ++ c ∷ ys) ≡ map use_of xs ++ use_of c ∷ map use_of ys
view-split xs ys c = map-append use_of xs (c ∷ ys)

count-view :
    (p : Text) (cs : List Call)
    → count (λ (u : Use). text_eq u.photo p && is_holding u.stage) (map use_of cs)
      ≡ count (holds p) cs
count-view p [] = refl
count-view p (c ∷ cs) = omega (arith, count-view p cs)

flag-le : (b : Bool) → flag b ≤ 1
flag-le true = omega arith
flag-le false = omega arith

count-holds-le-on : (p : Text) (cs : List Call) → count (holds p) cs ≤ count (on p) cs
count-holds-le-on p [] = omega arith
count-holds-le-on p (c ∷ cs) = ground (arith, count-holds-le-on p cs)

-- Where a call stands in the view, and what it is there.
at_use :
    (s : System) (xs ys : List Call) (c : Call) (stage : Stage)
    → s.calls ≡ xs ++ c ∷ ys
    → c.stage ≡ stage
    → view s ≡ map use_of xs ++ record { photo = c.photo; stage = stage } ∷ map use_of ys
at_use s xs ys c stage e w =
    ap (map use_of) e
    ∙ (view-split xs ys c
        ∙ ap (λ st. map use_of xs ++ record { photo = c.photo; stage = st } ∷ map use_of ys) w)

-- Whatever calls are under way and however their steps are interleaved, each step of the photo
-- locks is one that the promise allows.
pub Step-Promised : {s t : System} → Reach s → Step s t → Promised (view s) (view t)
unfolding ref
Step-Promised r (enter photo) = come photo
Step-Promised {s} r (acquire xs ys c e w free t) =
    take_it (map use_of xs) (map use_of ys) c.photo (at_use s xs ys c waiting e w)
      (count-view c.photo s.calls ∙ free_unheld s (Reach-IsCounted r) xs ys c e free)
      (ap view t ∙ view-split xs ys (record c { stage = holding }))
Step-Promised {s} r (release xs ys c e h t) =
    give_back (map use_of xs) (map use_of ys) c.photo (at_use s xs ys c holding e h)
      (ap view t ∙ view-split xs ys (record c { stage = leaving }))
Step-Promised {s} r (leave xs ys c e g t) =
    go (map use_of xs) (map use_of ys) c.photo (at_use s xs ys c leaving e g)
      (ap view t ∙ map-append use_of xs ys)

-- In every state that the calls can reach, no two of them hold one photo.
pub count-holds-le : (p : Text) {s : System} → Reach s → count (holds p) s.calls ≤ 1
count-holds-le p {s} r = elim (Option-cases (s.locks.entries p)) [
  | inl gone ↦ omega (arith, (Reach-IsCounted r).absent p gone, count-holds-le-on p s.calls)
  | inr (a, e) ↦ omega (arith, (Reach-IsCounted r).held p a e, flag-le (s.locks.heap a).locked)
]

-- A photo has an entry in the map exactly while some call is about it.
pub entries_iff :
    (p : Text) {s : System}
    → Reach s
    → (is_some (s.locks.entries p) ≡ true) ↔ (0 < count (on p) s.calls)
entries_iff p {s} r = elim (Option-cases (s.locks.entries p)) [
  | inl gone ↦ ground (arith, gone, (Reach-IsCounted r).absent p gone)
  | inr (a, e) ↦
      ground (arith, e, (Reach-IsCounted r).counted p a e, (Reach-IsCounted r).alive p a e)
]

-- Nobody waits in vain: where no call holds the photo, each call that waits for it can take it.
pub acquire_enabled :
    (xs ys : List Call) (c : Call) {s : System}
    → Reach s
    → s.calls ≡ xs ++ c ∷ ys
    → c.stage ≡ waiting
    → count (holds c.photo) s.calls ≡ 0
    → Step s (record {
      locks = set_locked true c.address s.locks;
      calls = xs ++ record c { stage = holding } ∷ ys;
    })
acquire_enabled xs ys c {s} r e w n =
    acquire xs ys c e w (unheld_free s (Reach-IsCounted r) xs ys c e n) refl
