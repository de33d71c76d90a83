-- ===== src/Tests/Server.antt =====
-- The server after some requests.
use smugbox.Server.{update_folder, upload_photo, drain_queue, here, later}
use smugbox.Server.Kept.{Reach-IsConsistent}
use smugbox.Api.Folders.{FolderInput, put_folder}
use smugbox.Api.Uploads.{Part, field, file, post_photo}
use smugbox.Api.Worker.{drain}
use smugbox.Db.Consistent.{IsConsistent}
use smugbox.World.{World}
use smugbox.Exec.{Result, ok}
use smugbox.Tests.Data.{tools, passwords, world, tables-IsConsistent}
use smugbox.Common.{codes, some, none, [], ◌∷◌, Option, List, inl}

abbrev renamed : Result FolderInput
renamed = ok (record { name = some (codes "Peaks"); parent_id = some []; idempotency_key = none })

abbrev moved : World
moved = (put_folder tools 9 (codes "f2") renamed world).1

abbrev body : Option (List Part)
body = some (
    field (codes "lr_photo_uuid") (some (codes "lr2"))
    ∷ file (codes "two.jpg") (inl (0xff ∷ 0xd8 ∷ 0xff ∷ 0xe0 ∷ []))
    ∷ [])

abbrev uploaded : World
uploaded = (post_photo tools passwords 10 (codes "p2") (codes "a1") body moved).1

Reach-IsConsistent_example : IsConsistent (drain tools 5 [] uploaded).1.tables
Reach-IsConsistent_example =
    Reach-IsConsistent tools passwords
      (later
        (later (later here (update_folder 9 (codes "f2") renamed))
          (upload_photo 10 (codes "p2") (codes "a1") body))
        (drain_queue 5 []))
      tables-IsConsistent
