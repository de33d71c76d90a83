-- ===== src/Api/Worker/Kept.antt =====
-- A drain keeps the tables consistent.
use smugbox.Api.Worker.{failure_key, noted, try_photo, drain_photos, drain_listed, drain}
use smugbox.Library.Render.{render}
use smugbox.Library.Render.Kept.{render-IsConsistent}
use smugbox.Db.{Photo}
use smugbox.Db.Consistent.{IsConsistent}
use smugbox.World.Invariant.{Tabled, Keeps-query}
use smugbox.Media.{Tools}
use smugbox.Exec.{Result, ok, err, attempt}
use smugbox.Exec.Keeps.{Keeps, Keeps-bind, Keeps-attempt, Keeps-if, Keeps-return}
use smugbox.Common.{ℕ, Text, List, ◌∷◌, any, suc, text_eq, [], zero}

module _ (tools : Tools) where
  Keeps-try_photo :
      (p : Photo) (failed : List Text) → Keeps (Tabled IsConsistent) (try_photo tools p failed)
  unfolding try_photo
  Keeps-try_photo p failed =
      Keeps-if (any (λ k. text_eq k (failure_key p)) failed) _ _ (λ e. Keeps-return failed)
        (λ e.
          Keeps-bind (attempt (render tools p.album_id p.id)) _
            (Keeps-attempt _
              (record { run = λ w c. render-IsConsistent tools p.album_id p.id w c }))
            λ r. Keeps-return (noted p failed r))

  Keeps-drain_photos :
      (ps : List Photo) (live : ℕ) (failed : List Text)
      → Keeps (Tabled IsConsistent) (drain_photos tools ps live failed)
  unfolding drain_photos
  Keeps-drain_photos [] live failed = Keeps-return failed
  Keeps-drain_photos (p ∷ ps) zero failed = Keeps-return failed
  Keeps-drain_photos (p ∷ ps) (suc live) failed =
      Keeps-bind _ _ (Keeps-try_photo p failed) λ f. Keeps-drain_photos ps live f

  Keeps-drain_listed :
      (live : ℕ) (failed : List Text) (r : Result (List Photo))
      → Keeps (Tabled IsConsistent) (drain_listed tools live failed r)
  Keeps-drain_listed live failed (ok ps) = Keeps-drain_photos ps live failed
  Keeps-drain_listed live failed (err e) = Keeps-return failed

  pub drain-IsConsistent :
      (live : ℕ) (failed : List Text) → Keeps (Tabled IsConsistent) (drain tools live failed)
  unfolding drain
  drain-IsConsistent live failed =
      Keeps-bind _ _ (Keeps-attempt _ (Keeps-query IsConsistent _))
        λ r. Keeps-drain_listed live failed r
