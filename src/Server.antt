-- ===== src/Server.antt =====
-- The server as a whole: its operations one after the other, in any order and with any arguments, and
-- whatever fails on the way. What each request is called with is chosen by the environment; a new
-- uuid is one that no row has as its id, and that no request can know before.
pub mod Kept
use smugbox.Api.Folders.{FolderInput, post_folder, put_folder, drop_folder}
use smugbox.Api.Albums.{
  Passwords, AlbumInput, post_album, put_album, drop_album, put_photo_order, drop_photo,
}
use smugbox.Api.Keys.{require_api_key}
use smugbox.Admin.{create_key, revoke_key, set_password, delete_album_by_slug}
use smugbox.Api.Uploads.{Part, post_photo, put_photo}
use smugbox.Api.Worker.{drain}
use smugbox.World.{World}
use smugbox.Media.{Tools}
use smugbox.Exec.{Result, ok}
use smugbox.Common.{ℕ, Text, List, Bool, Option, some, [], ◌≡◌, ◌≢◌}

module _ (tools : Tools) (passwords : Passwords) where
  pub data Step (w : World) : World → Type 0 where
    -- Other operations outside the program fail from here on.
    faults_ahead : (fs : List Bool) → Step w (record w { faults = fs })
    authenticate : (now : ℕ) (header : Text) → Step w (require_api_key tools.sha256 now header w).1
    create_folder :
        (now : ℕ) (fresh : Text) (random : List ℕ) (slugify : Text → Text)
        (body : Result FolderInput)
        → fresh ≢ []
        → ((input : FolderInput) → body ≡ ok input → input.parent_id ≢ some fresh)
        → Step w (post_folder tools now fresh random slugify body w).1
    update_folder :
        (now : ℕ) (id : Text) (body : Result FolderInput)
        → Step w (put_folder tools now id body w).1
    delete_folder : (id : Text) → Step w (drop_folder tools id w).1
    create_album :
        (now : ℕ) (fresh : Text) (random : List ℕ) (slugify : Text → Text)
        (body : Result AlbumInput)
        → Step w (post_album passwords tools now fresh random slugify body w).1
    update_album :
        (now : ℕ) (id : Text) (body : Result AlbumInput)
        → Step w (put_album passwords tools now id body w).1
    delete_album : (id : Text) → Step w (drop_album passwords tools id w).1
    order_photos :
        (id : Text) (body : Result (List Text))
        → Step w (put_photo_order passwords tools id body w).1
    delete_photo : (id photo_id : Text) → Step w (drop_photo passwords tools id photo_id w).1
    upload_photo :
        (now : ℕ) (fresh id : Text) (body : Option (List Part))
        → Step w (post_photo tools passwords now fresh id body w).1
    replace_photo :
        (now : ℕ) (fresh id photo_id : Text) (body : Option (List Part))
        → Step w (put_photo tools passwords now fresh id photo_id body w).1
    -- The variant worker, with the photos that it remembers as failed.
    drain_queue : (live : ℕ) (failed : List Text) → Step w (drain tools live failed w).1
    make_api_key :
        (base64 : Text → Text) (id label : Text) (now : ℕ) (random : List ℕ)
        → Step w (create_key tools.sha256 base64 id label now random w).1
    end_api_key : (id : Text) (now : ℕ) → Step w (revoke_key id now w).1
    change_password :
        (slug : Text) (clear : Bool) (typed : Result Text) (now : ℕ)
        → Step w (set_password passwords slug clear typed now w).1
    remove_album : (slug : Text) → Step w (delete_album_by_slug tools slug w).1

  pub data Reach (w : World) : World → Type 0 where
    here : Reach w w
    later : {u v : World} → Reach w u → Step u v → Reach w v
