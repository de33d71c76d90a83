-- ===== src/Admin/Password.antt =====
-- What a new password of the command line does to the visitors' sessions.
use smugbox.Admin.{with_hash}
use smugbox.Api.Access.Held.{Held}
use smugbox.Api.Albums.{Passwords}
use smugbox.Db.{Album, Tables}
use smugbox.Db.Albums.{get_album_by_slug}
use smugbox.World.{World}
use smugbox.Exec.{ok}
use smugbox.Exec.Runs.{Runs}
use smugbox.Common.{ℕ, Text, ◌≡◌}

module _ (passwords : Passwords) where
  -- The row that is written is the album of the slug with a new hash and the next version.
  abbrev Written : Text → ℕ → Tables → Album → Type 0
  Written slug now t b =
      (a : Album) × (get_album_by_slug slug t ≡ ok a)
      × (hash : Text) × (b ≡ with_hash passwords now hash a)
