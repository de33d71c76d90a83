-- ===== src/Tests/Locks.antt =====
-- The photo locks with one call under way.
use smugbox.Library.Locks.{
  Call, System, Step, Reach, ref, set_locked, new_locks, waiting, holding, enter, acquire, start,
  later,
}
use smugbox.Library.Locks.Invariant.{count, holds, on}
use smugbox.Library.Locks.Refined.{
  Promised, view, Step-Promised, count-holds-le, entries_iff, acquire_enabled,
}
use smugbox.Common.{Text, codes, [], ◌∷◌, refl, ◌≤◌, ◌↔◌, ◌<◌, ◌≡◌, true, is_some, text_eq}

abbrev photo_id : Text
photo_id = codes "p1"

abbrev call : Call
call = record { photo = photo_id; address = 0; stage = waiting }

abbrev entered : System
entered = record { locks = (ref photo_id new_locks).1; calls = call ∷ [] }

abbrev taken : System
taken = record {
  locks = set_locked true 0 entered.locks;
  calls = record call { stage = holding } ∷ [];
}

entered-Reach : Reach entered
unfolding ref
entered-Reach = later start (enter photo_id)

taken-Step : Step entered taken
unfolding ref
taken-Step = acquire [] [] call refl refl refl refl

Step-Promised_example : Promised (view entered) (view taken)
Step-Promised_example = Step-Promised entered-Reach taken-Step

count-holds-le_example : count (holds photo_id) taken.calls ≤ 1
count-holds-le_example = count-holds-le photo_id (later entered-Reach taken-Step)

entries_iff_example :
    (is_some (taken.locks.entries photo_id) ≡ true) ↔ (0 < count (on photo_id) taken.calls)
entries_iff_example = entries_iff photo_id (later entered-Reach taken-Step)

acquire_enabled_example : Step entered taken
unfolding text_eq
acquire_enabled_example = acquire_enabled [] [] call entered-Reach refl refl refl
