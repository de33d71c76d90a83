-- ===== src/Tests/Api.antt =====
-- The handlers and the library on the world of the tests.
use smugbox.Api.Folders.{FolderInput}
use smugbox.Api.Albums.{AlbumInput, change_password}
use smugbox.Api.Access.Held.{album_access-change_password, Held, nothing, unlocked}
use smugbox.Api.Albums.Versions.{itself}
use smugbox.Api.Access.{album_access, next_session, unlock_album, judge}
use smugbox.Api.Access.Unlocked.{album_access-next, unlock_album-Entitled, Entitled}
use smugbox.Auth.Session.{add, encode}
use smugbox.Auth.Limiter.{
  RateLimiter, new_rate_limiter, allow, answer, allow_new, admit, take_token, sweep, lookup, insert,
}
use smugbox.Slug.{valid_slug, slug_re}
use smugbox.World.{query, io, World, commit, execute, remove_photo_dir}
use smugbox.Db.{Album, Photo}
use smugbox.Db.Albums.{get_album_by_slug}
use smugbox.Library.Ingest.{
  ingest, check_upload, probe, resolve_id, find_target, write_target, write_photo_row, with_file,
  named, save,
}
use smugbox.Library.Ingest.Spared.{ingest-keeps_ready}
use smugbox.Library.Render.{render, remove}
use smugbox.Exec.{Result, ok}
use smugbox.Library.Render.Spared.{remove-keeps_ready}
use smugbox.Library.Render.Served.{original_path, IsServed}
use smugbox.Library.Render.Ready.{render-IsServed}
use smugbox.Db.Photos.{
  get_photo, mark_variants_ready, get_photo_by_lr_uuid, insert_photo, delete_photo,
}
use smugbox.Storage.{file_path}
use smugbox.Storage.Disk.{read_file}
use smugbox.Tests.Data.{photo, tools, passwords, world, tables, jpeg, codec, album}
use smugbox.Common.{
  some, codes, text_eq, none, [], ◌≡◌, arith, false, ◌⊎◌, true, ap, refl, Text, ◌∷◌, trim_space,
}
use smugbox.Library.Metadata.{parse_metadata}
use smugbox.Media.{sniff, is_jpeg}

abbrev move : Result FolderInput
move =
    ok
      (record { name = some (codes "Alps"); parent_id = some (codes "f2"); idempotency_key = none })

abbrev input : AlbumInput
input = record {
  name = some (codes "Lake");
  description = none;
  password = some (codes "new");
  is_listed = some false;
  cover_photo_id = some (codes "p1");
  parent_id = some (codes "f1");
  idempotency_key = none;
}

abbrev changed : Album
changed = record album { password_hash = codes "#new"; password_version = 2 }

abbrev unlocked_value : Text
unlocked_value = encode codec (add (next_session codec 3 none) album.id album.password_version)

-- A cookie of an unlock of the album.
album-Held : Held codec passwords passwords.check_password album (some unlocked_value)
unfolding judge text_eq
album-Held = unlocked 3 (codes "old") unlocked_value (nothing album) refl

album_access-change_password_example : album_access codec 5 (some unlocked_value) changed ≡ false
unfolding change_password text_eq
album_access-change_password_example =
    album_access-change_password codec passwords passwords.check_password 5 (some unlocked_value)
      (some (codes "new")) album changed changed album-Held refl
      (λ e. absurd (omega (arith, ap (λ (a : Album). a.password_version) e))) itself refl

album_access-next_example :
    album_access codec 5
      (some (encode codec (add (next_session codec 3 none) album.id album.password_version)))
      album
    ≡ true
album_access-next_example = album_access-next codec 3 5 none album album refl refl

abbrev limiter : RateLimiter
limiter = new_rate_limiter 5 5 10000 0

unlock_album-Entitled_example :
    (password : Text) × (ok (codes "old") ≡ ok password)
    × Entitled codec passwords.check_password 3
        (codes "hike")
        none
        password
        tables
        (some (encode codec (add (next_session codec 3 none) album.id album.password_version)))
unfolding unlock_album judge valid_slug slug_re allow answer allow_new admit take_token sweep lookup
    insert query io get_album_by_slug text_eq new_rate_limiter
unlock_album-Entitled_example =
    unlock_album-Entitled codec passwords.check_password 3 (codes "::1") (codes "hike") none
      (ok (codes "old")) limiter world
      (some (encode codec (add (next_session codec 3 none) album.id album.password_version))) refl

-- The original of the photo is on the disk.
abbrev with_original : World
with_original = record world {
  disk = record { path = original_path tools photo; content = codes "jpeg" } ∷ [];
}

render-IsServed_example :
    ((render tools (codes "a1") (codes "p1") with_original).1.tables ≡ tables)
    ⊎ (((render tools (codes "a1") (codes "p1") with_original).1.tables
          ≡ (mark_variants_ready (codes "a1") (codes "p1") (codes "h") tables).1)
        × IsServed tools photo (render tools (codes "a1") (codes "p1") with_original).1.disk)
unfolding get_photo text_eq
render-IsServed_example = render-IsServed tools (codes "a1") (codes "p1") with_original photo refl

abbrev ready_photo : Photo
ready_photo = record photo { variants_ready = true }

abbrev with_ready : World
with_ready = record with_original { tables = record tables { photos = ready_photo ∷ [] } }

-- A second photo is posted beside one that is ready.
ingest-keeps_ready_example :
    read_file
      (original_path tools photo)
      (ingest tools 9
        (codes "p2")
        (codes "a1")
        []
        (λ name. some (codes "lr2"))
        (some jpeg)
        with_ready).1.disk
    ≡ read_file (original_path tools photo) with_ready.disk
unfolding get_photo text_eq ingest check_upload probe resolve_id get_photo_by_lr_uuid find_target
    write_target write_photo_row with_file named save commit insert_photo query io execute
    trim_space parse_metadata sniff is_jpeg file_path
ingest-keeps_ready_example =
    ingest-keeps_ready tools 9 (codes "p2") (codes "a1") [] (λ name. some (codes "lr2")) (some jpeg)
      with_ready (codes "a1") (codes "p1") ready_photo refl refl (original_path tools photo) refl

abbrev with_two : World
with_two = record with_original {
  tables = record tables { photos = ready_photo ∷ record photo { id = codes "p2" } ∷ [] };
}

remove-keeps_ready_example :
    read_file (original_path tools photo) (remove tools (codes "a1") (codes "p2") with_two).1.disk
    ≡ read_file (original_path tools photo) with_two.disk
unfolding get_photo text_eq remove delete_photo execute io file_path remove_photo_dir
remove-keeps_ready_example =
    remove-keeps_ready tools (codes "a1") (codes "p2") with_two (codes "a1") (codes "p1")
      ready_photo refl refl (original_path tools photo) refl
