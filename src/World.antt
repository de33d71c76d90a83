-- ===== src/World.antt =====
-- What the server's operations change: the tables and the photo files. An operation outside the
-- program (a statement, a system call, a wait that the client breaks off) may fail at any time:
-- `faults` says, one operation after the other, whether it does; behind its end nothing fails. A
-- statement that fails leaves the tables as they were, and so does a file operation the files.
pub mod Invariant
use smugbox.Common.{true, false, Bool, List, Text, ◌∷◌, if◌then◌else◌, [], true}
use smugbox.Db.{Tables}
use smugbox.Exec.{Exec, Result, ok, err, fail, internal, ◌>>◌, ◌>>=◌, gets, lift, return}
use smugbox.Media.{Tools}
use smugbox.Storage.Disk.{StoredFile, put_file, remove_photo_files, remove_album_files, remove_file}
use smugbox.Storage.{Variant, file_path, photo_dir, album_dir}

pub record World : Type 0 where
  pub tables : Tables
  pub disk : List StoredFile
  pub faults : List Bool

abbrev pub strike : List Bool → World → Result (Unit {0}) × World
strike [] w = (ok tt, w)
strike (true ∷ rest) w = (err internal, record w { faults = rest })
strike (false ∷ rest) w = (ok tt, record w { faults = rest })

-- One operation outside the program.
unfoldable pub io : Exec World (Unit {0})
io w = strike w.faults w

abbrev pub set_tables : Tables → Exec World (Unit {0})
set_tables t w = (ok tt, record w { tables = t })

abbrev pub set_disk : (List StoredFile → List StoredFile) → Exec World (Unit {0})
set_disk f w = (ok tt, record w { disk = f w.disk })

-- A query, and a statement that changes the tables.
unfoldable pub query : {A : Type 0} → (Tables → Result A) → Exec World A
query f = do io; r ← gets (λ w. f w.tables); lift r

unfoldable pub execute : (Tables → Result Tables) → Exec World (Unit {0})
execute f = do io; r ← gets (λ w. f w.tables); t ← lift r; set_tables t

-- A file in incoming/, which Commit moves away once.
pub record Staged : Type 0 where
  pub content : Text
  pub committed : Bool

module _ (tools : Tools) where
  -- Store.Commit: sync, make the directory, rename.
  unfoldable pub commit : Staged → Text → Text → Variant → Text → Exec World Staged
  commit st album_id photo_id v mime = if st.committed then fail internal else do
    dst ← lift (file_path tools.parse_uuid album_id photo_id v mime)
    io
    io
    io
    set_disk (put_file dst st.content)
    return (record st { committed = true })

  unfoldable pub remove_photo_dir : Text → Text → Exec World (Unit {0})
  remove_photo_dir album_id photo_id = do
    lift (photo_dir tools.parse_uuid album_id photo_id)
    io
    set_disk (remove_photo_files album_id photo_id)

  unfoldable pub remove_album_dir : Text → Exec World (Unit {0})
  remove_album_dir album_id = do
    lift (album_dir tools.parse_uuid album_id)
    io
    set_disk (remove_album_files album_id)

  -- Store.Remove; a file that is not there is no error.
  unfoldable pub remove_variant : Text → Text → Variant → Text → Exec World (Unit {0})
  remove_variant album_id photo_id v mime = do
    p ← lift (file_path tools.parse_uuid album_id photo_id v mime)
    io
    set_disk (remove_file p)
