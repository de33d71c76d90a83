-- ===== src/Api/Worker.antt =====
-- variantWorker (backend/internal/api/variants.go), which renders the variants of uploaded photos. A step is
-- what one goroutine does under `mu`, or one operation on the channel `wake`; a drain is one step too,
-- while kicks go on. `unseen` is no part of the source: it counts the kicks since a drain last began.
pub mod Kicks
pub mod Drained
pub mod Settled
pub mod Kept
use smugbox.Library.Render.{render}
use smugbox.Db.{Photo}
use smugbox.Db.Listed.{list_photos_pending_variants}
use smugbox.World.{World, query}
use smugbox.Media.{Tools}
use smugbox.Exec.{Exec, Result, ok, err, return, attempt, ◌>>=◌}
use smugbox.Common.{
  ℕ, Text, ◌++◌, List, Bool, true, false, ◌<◌, ◌∷◌, if◌then◌else◌, [], ◌+◌, ◌-◌, not, ◌≡◌, any,
  ◌&&◌, suc, text_eq, zero,
}

-- photoID:contentHash
abbrev pub failure_key : Photo → Text
failure_key p = p.id ++ (b':' ∷ p.content_hash)

-- A photo that cannot be rendered is remembered.
abbrev pub noted : Photo → List Text → Result (Unit {0}) → List Text
noted p failed (ok u) = failed
noted p failed (err e) = failure_key p ∷ failed

module _ (tools : Tools) where
  -- One round of the loop, unless the photo has failed before.
  unfoldable pub try_photo : Photo → List Text → Exec World (List Text)
  try_photo p failed =
      if any (λ k. text_eq k (failure_key p)) failed
      then return failed
      else (do r ← attempt (render tools p.album_id p.id); return (noted p failed r))

  -- The loop; `live` is how many rounds begin before the context is cancelled.
  unfoldable pub drain_photos : List Photo → ℕ → List Text → Exec World (List Text)
  unfolding try_photo
  drain_photos [] live failed = return failed
  drain_photos (p ∷ ps) zero failed = return failed
  drain_photos (p ∷ ps) (suc live) failed = do
    failed' ← try_photo p failed
    drain_photos ps live failed'

  abbrev pub drain_listed : ℕ → List Text → Result (List Photo) → Exec World (List Text)
  drain_listed live failed (err e) = return failed
  drain_listed live failed (ok ps) = drain_photos ps live failed

  -- `drain`: the answer is the failures that the worker remembers afterwards.
  unfoldable pub drain : ℕ → List Text → Exec World (List Text)
  unfolding drain_photos
  drain live failed = do
    r ← attempt (query (λ t. ok (list_photos_pending_variants t)))
    drain_listed live failed r

-- Where `run` stands: not called, at its select, behind it, in a drain, or behind the drain.
pub data Phase : Type 0 where
  off waiting woken working drained : Phase

-- `wake` is whether the channel holds its one token; `pushing` counts the calls of `kick` between their
-- two halves.
pub record Worker : Type 0 where
  pub wake : Bool
  pub pushing : ℕ
  pub busy : Bool
  pub kicked : Bool
  pub failed : List Text
  pub stopped : Bool
  pub phase : Phase
  pub unseen : ℕ

-- `newVariantWorker`: the first kick is for what was pending when the process last stopped.
abbrev pub new_worker : Worker
new_worker = record {
  wake = true;
  pushing = 0;
  busy = false;
  kicked = true;
  failed = [];
  stopped = false;
  phase = off;
  unseen = 1;
}

-- The two halves of `kick`.
abbrev pub raise : Worker → Worker
raise v = record v { kicked = true; pushing = v.pushing + 1; unseen = v.unseen + 1 }

abbrev pub push : Worker → Worker
push v = record v { wake = true; pushing = v.pushing - 1 }

abbrev pub begin : Worker → Worker
begin v = record v { kicked = false; busy = true; phase = working; unseen = 0 }

-- `idle`
abbrev pub idle : Worker → Bool
idle v = not v.busy && (not v.kicked && not v.wake)

module _ (tools : Tools) where
  pub data Step (w : World) (v : Worker) : World → Worker → Type 0 where
    -- Requests change the tables and the files between the worker's steps.
    request : (w' : World) → Step w v w' v
    raised : Step w v w (raise v)
    pushed : 0 < v.pushing → Step w v w (push v)
    runs : v.phase ≡ off → Step w v w (record v { stopped = false; phase = waiting })
    wakes :
        v.phase ≡ waiting → v.wake ≡ true → Step w v w (record v { wake = false; phase = woken })
    ticks : v.phase ≡ waiting → Step w v w (record v { failed = []; phase = woken })
    stops : v.phase ≡ waiting → Step w v w (record v { stopped = true; phase = off })
    begins : v.phase ≡ woken → Step w v w (begin v)
    drains :
        (live : ℕ) (failed : List Text)
        → v.phase ≡ working
        → (drain tools live v.failed w).0 ≡ ok failed
        → Step w v (drain tools live v.failed w).1 (record v { failed = failed; phase = drained })
    rests : v.phase ≡ drained → Step w v w (record v { busy = false; phase = waiting })

  pub data Reach : World → Worker → Type 0 where
    made : (w : World) → Reach w new_worker
    later : {w w' : World} {v v' : Worker} → Reach w v → Step w v w' v' → Reach w' v'
