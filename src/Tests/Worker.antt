-- ===== src/Tests/Worker.antt =====
-- The variant worker after its start, with one photo that cannot be rendered.
use smugbox.Api.Worker.{
  drain, failure_key, Worker, new_worker, begin, Reach, made, later, runs, wakes, begins, drains,
  rests, woken, waiting,
}
use smugbox.Api.Worker.Kicks.{idle-unseen, is_draining}
use smugbox.Api.Worker.Drained.{Settled}
use smugbox.Api.Worker.Settled.{drain-Settled}
use smugbox.World.{query, io}
use smugbox.Tests.Data.{photo, tools, world, tables-IsConsistent}
use smugbox.Common.{List, Text, ◌≡◌, ◌∷◌, text_eq, All, false, [], refl, arith, sort_by}
use smugbox.Exec.{ok}
use smugbox.Db.Listed.{list_photos_pending_variants}
use smugbox.Library.Render.{render}
use smugbox.Db.Photos.{get_photo}
use smugbox.Storage.{file_path}
use smugbox.Storage.Disk.{read_file}

abbrev failures : List Text
failures = failure_key photo ∷ []

drain_run : (drain tools 5 [] world).0 ≡ ok failures
unfolding drain text_eq query io list_photos_pending_variants sort_by render get_photo file_path
    read_file
drain_run = refl

drain-Settled_example :
    All
      (λ p. p.variants_ready ≡ false → Settled (drain tools 5 [] world).1.tables failures p)
      world.tables.photos
drain-Settled_example =
    drain-Settled tools 5 [] failures world tables-IsConsistent refl (omega arith) drain_run

abbrev started : Worker
started = record new_worker { stopped = false; phase = waiting }

started-Reach : Reach tools world started
started-Reach = later (made world) (runs refl)

abbrev rested : Worker
rested = record (begin (record started { wake = false; phase = woken })) {
  failed = failures;
  busy = false;
  phase = waiting;
}

rested-Reach : Reach tools (drain tools 5 [] world).1 rested
rested-Reach =
    later
      (later (later (later started-Reach (wakes refl refl)) (begins refl))
        (drains 5 failures refl drain_run))
      (rests refl)

idle-unseen_example : (rested.unseen ≡ 0) × (is_draining rested.phase ≡ false)
idle-unseen_example = idle-unseen tools rested-Reach refl
