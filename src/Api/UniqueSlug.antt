-- ===== src/Api/UniqueSlug.antt =====
-- withUniqueSlug (backend/internal/api/slug.go): the attempts to create a row under a free slug.
use smugbox.World.{World}
use smugbox.Exec.{Exec, Result, ok, err, fail, return, attempt, slug_taken, internal, ◌>>=◌}
use smugbox.Slug.{slug_suffix, slug_retries}
use smugbox.Common.{Text, List, ℕ, Option, suc, some, zero, ◌++◌, ◌∷◌, none}

-- The attempts from the source's counter on; `n` are left after this one, and `random` is what is
-- left of the random source.
module _ (base : Text) (create : Text → Exec World (Unit {0})) where
  abbrev pub retried : (Text → List ℕ → Exec World Text) → Option (Text × List ℕ) → Exec World Text
  retried again none = fail internal
  retried again (some (suffix, rest)) = again (base ++ (b'-' ∷ suffix)) rest

  abbrev pub settle : Text → Result (Unit {0}) → Exec World Text → Exec World Text
  settle slug (ok u) more = return slug
  settle slug (err slug_taken) more = more
  settle slug (err e) more = fail e

  unfoldable pub attempts : ℕ → Text → List ℕ → Exec World Text
  unfolding slug_suffix
  attempts zero slug random = do r ← attempt (create slug); settle slug r (fail slug_taken)
  attempts (suc n) slug random = do
    r ← attempt (create slug)
    settle slug r (retried (attempts n) (slug_suffix random 4))

  -- `base` is the slug of the name. The answer is the slug of the row.
  unfoldable pub with_unique_slug : List ℕ → Exec World Text
  unfolding attempts
  with_unique_slug random = attempts slug_retries base random
