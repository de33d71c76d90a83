-- ===== src/Api/Worker/Kicks.antt =====
-- No kick of the variant worker is lost.
use smugbox.Api.Worker.{
  Phase, woken, working, drained, Worker, idle, Step, Reach, request, raised, pushed, runs, wakes,
  ticks, stops, begins, drains, rests, made, later, err,
}
use smugbox.World.{World}
use smugbox.Exec.Runs.{Runs}
use smugbox.Media.{Tools}
use smugbox.Common.{Bool, ◌≡◌, arith, true, false, ◌||◌, sym, ltb, ◌∙◌, refl}
use smugbox.Exec.{err}

abbrev pub is_draining : Phase → Bool
is_draining working = true
is_draining drained = true
is_draining p = false

abbrev is_woken : Phase → Bool
is_woken woken = true
is_woken p = false

record IsHeard (v : Worker) : Type 0 where
  seen : v.kicked ≡ false → v.unseen ≡ 0
  token : v.kicked ≡ true → (v.wake || (ltb 0 v.pushing || is_woken v.phase)) ≡ true
  busy : v.busy ≡ is_draining v.phase

module _ (tools : Tools) where
  Step-IsHeard :
      {w : World} {v : Worker} {w' : World} {v' : Worker}
      → Step tools w v w' v'
      → IsHeard v
      → IsHeard v'
  Step-IsHeard (request w) h = h
  Step-IsHeard raised h = record {
    seen = λ e. absurd (cc);
    token = λ e. ground arith;
    busy = h.busy;
  }
  Step-IsHeard (pushed some) h = record { seen = h.seen; token = λ e. refl; busy = h.busy }
  Step-IsHeard {v} (runs e) h = record {
    seen = h.seen;
    token = λ k. ground (arith, e, h.token k);
    busy = ground (arith, e, h.busy);
  }
  Step-IsHeard (wakes e t) h = record {
    seen = h.seen;
    token = λ k. ground arith;
    busy = ground (arith, e, h.busy);
  }
  Step-IsHeard (ticks e) h = record {
    seen = h.seen;
    token = λ k. ground arith;
    busy = ground (arith, e, h.busy);
  }
  Step-IsHeard (stops e) h = record {
    seen = h.seen;
    token = λ k. ground (arith, e, h.token k);
    busy = ground (arith, e, h.busy);
  }
  Step-IsHeard (begins e) h = record { seen = λ k. refl; token = λ k. absurd (cc); busy = refl }
  Step-IsHeard (drains live failed e d) h = record {
    seen = h.seen;
    token = λ k. ground (arith, e, h.token k);
    busy = ground (arith, e, h.busy);
  }
  Step-IsHeard (rests e) h = record {
    seen = h.seen;
    token = λ k. ground (arith, e, h.token k);
    busy = refl;
  }

  Reach-IsHeard : {w : World} {v : Worker} → Reach tools w v → IsHeard v
  Reach-IsHeard (made w) = record { seen = λ e. absurd (cc); token = λ e. refl; busy = refl }
  Reach-IsHeard (later r s) = Step-IsHeard s (Reach-IsHeard r)

  -- When the worker says that it is idle, no drain is running, and one has begun since every kick.
  pub idle-unseen :
      {w : World} {v : Worker}
      → Reach tools w v
      → idle v ≡ true
      → (v.unseen ≡ 0) × (is_draining v.phase ≡ false)
  idle-unseen {w} {v} r e =
      let h = Reach-IsHeard r in (h.seen (ground (arith, e)), sym h.busy ∙ ground (arith, e))

  -- A step that waits for nobody: a caller of kick goes on, or the worker does, but for its timer.
  abbrev pub is_own :
      {w : World} {v : Worker} {w' : World} {v' : Worker} → Step tools w v w' v' → Bool
  is_own (pushed e) = true
  is_own (wakes e t) = true
  is_own (begins e) = true
  is_own (drains live failed e d) = true
  is_own (rests e) = true
  is_own s = false

  -- From one state to another by such steps alone.
  pub data Leads : World → Worker → World → Worker → Type 0 where
    there : {w : World} {v : Worker} → Leads w v w v
    onward :
        {w : World} {v : Worker} {w' : World} {v' : Worker} {w'' : World} {v'' : Worker}
        (s : Step tools w v w' v')
        → is_own s ≡ true
        → Leads w' v' w'' v''
        → Leads w v w'' v''

  -- A state without unseen kicks comes next.
  abbrev pub Catches : World → Worker → Type 0
  Catches w v = (w' : World) × (v' : Worker) × Leads w v w' v' × (v'.unseen ≡ 0)
