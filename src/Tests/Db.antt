-- ===== src/Tests/Db.antt =====
-- The folder tree and the statements.
use smugbox.Db.Folders.{folder_chain}
use smugbox.Db.Photos.{set_photo_order}
use smugbox.Db.Photos.Order.{set_photo_order-placed}
use smugbox.Db.Tree.{top, under}
use smugbox.Db.Tree.Move.{Leads, folder_chain-Leads}
use smugbox.Tests.Data.{tables, inner, outer, photo}
use smugbox.Common.{text_eq, [], ◌∷◌, codes, refl, ◌≡◌}

folder_chain-Leads_example : Leads tables.folders (folder_chain (codes "f2") tables) (codes "f2")
unfolding text_eq
folder_chain-Leads_example =
    folder_chain-Leads tables (codes "f2")
      (under inner refl refl (under outer refl refl (top refl)))

-- The photo comes last where it is listed twice.
set_photo_order-placed_example :
    set_photo_order (codes "a1") (codes "p1" ∷ codes "p7" ∷ codes "p1" ∷ []) tables
    ≡ record tables { photos = record photo { sort_order = 3 } ∷ [] }
unfolding text_eq
set_photo_order-placed_example =
    set_photo_order-placed (codes "a1") (codes "p1" ∷ codes "p7" ∷ codes "p1" ∷ []) tables
