-- ===== src/Storage/Listing.antt =====
-- What admin gc may remove: Orphans and StaleIncoming of backend/internal/storage/storage.go, and
-- gcTargets and gc of backend/cmd/smugbox/admin.go. A listing is what Walk saw of photos/. A path is
-- kept as the names that filepath.Join puts together, which hold no slash; times are numbers, and
-- `now.Sub(t) > age` is written without a subtraction. RemoveAll removes all or fails with nothing done.
pub mod Targets
pub mod Spared
use smugbox.Common.{
  is_empty, false, true, ℕ, Text, List, Bool, Option, ltb, ◌++◌, map, if◌then◌else◌, ◌∷◌, [], some,
  ◌+◌, filter, not, any, none, ◌&&◌, ◌||◌, text_eq,
}
use smugbox.Db.{PhotoRef}

-- A path under the root: photos/<name>, photos/<album>/<name> or incoming/<name>.
pub data Place : Type 0 where
  of_album : (name : Text) → Place
  of_photo : (album name : Text) → Place
  of_incoming : (name : Text) → Place

pub record PhotoDir : Type 0 where
  pub album_id : Text
  pub photo_id : Text
  pub path : Place
  pub mod_time : ℕ

pub record DirInfo : Type 0 where
  pub path : Place
  pub mod_time : ℕ

pub record Listing : Type 0 where
  pub photos : List PhotoDir
  pub junk : List Place
  pub empty_dirs : List DirInfo

-- One hour in seconds.
abbrev pub gc_grace : ℕ
gc_grace = 3600

abbrev pub older : ℕ → ℕ → ℕ → Bool
older now min_age t = ltb (t + min_age) now

unfoldable pub orphans : (Text → Text → Bool) → ℕ → ℕ → Listing → List Place
orphans known now min_age l =
    l.junk
    ++ (map (λ p. p.path)
          (filter (λ p. not (known p.album_id p.photo_id) && older now min_age p.mod_time) l.photos)
        ++ map (λ d. d.path) (filter (λ d. older now min_age d.mod_time) l.empty_dirs))

-- The entries of a directory that Walk reads: a name, whether it is a directory, its time if it can
-- still be read, and for an album what is in it.
pub record DirEntry : Type 0 where
  pub name : Text
  pub is_dir : Bool
  pub mod_time : Option ℕ

-- A file whose time can no longer be read is gone.
abbrev pub is_stale_file : ℕ → ℕ → Option ℕ → Bool
is_stale_file now max_age none = false
is_stale_file now max_age (some t) = older now max_age t

unfoldable pub stale_incoming : ℕ → ℕ → List DirEntry → List Place
stale_incoming now max_age files =
    map (λ f. of_incoming f.name) (filter (λ f. is_stale_file now max_age f.mod_time) files)

pub record AlbumEntry : Type 0 where
  pub entry : DirEntry
  pub inside : Option (List DirEntry)

abbrev pub add_junk : Place → Listing → Listing
add_junk path l = record l { junk = l.junk ++ path ∷ [] }

-- A photo directory whose time can no longer be read is passed over.
abbrev pub add_photo : Text → Text → Option ℕ → Listing → Listing
add_photo album_id photo_id none l = l
add_photo album_id photo_id (some t) l = record l {
  photos =
      l.photos
      ++ record {
        album_id = album_id;
        photo_id = photo_id;
        path = of_photo album_id photo_id;
        mod_time = t;
      }
        ∷ [];
}

-- The inner loop: one entry of an album's directory.
unfoldable pub walk_photo : (Text → Bool) → Text → DirEntry → Listing → Listing
walk_photo valid album_id p l =
    if not p.is_dir || not (valid p.name)
    then add_junk (of_photo album_id p.name) l
    else add_photo album_id p.name p.mod_time l

unfoldable pub walk_photos : (Text → Bool) → Text → List DirEntry → Listing → Listing
unfolding walk_photo
walk_photos valid album_id [] l = l
walk_photos valid album_id (p ∷ ps) l =
    walk_photos valid album_id ps (walk_photo valid album_id p l)

abbrev pub walk_inside :
    (Text → Bool) → Text → Option ℕ → Option (List DirEntry) → Listing → Listing
walk_inside valid album_id time none l = l
walk_inside valid album_id none (some []) l = l
walk_inside valid album_id (some t) (some []) l = record l {
  empty_dirs = l.empty_dirs ++ record { path = of_album album_id; mod_time = t } ∷ [];
}
walk_inside valid album_id time (some (p ∷ ps)) l = walk_photos valid album_id (p ∷ ps) l

-- The outer loop. A directory that is gone by the time it is read is passed over.
unfoldable pub walk_album : (Text → Bool) → AlbumEntry → Listing → Listing
unfolding walk_photos
walk_album valid a l =
    if not a.entry.is_dir || not (valid a.entry.name)
    then add_junk (of_album a.entry.name) l
    else walk_inside valid a.entry.name a.entry.mod_time a.inside l

unfoldable pub walk_from : (Text → Bool) → List AlbumEntry → Listing → Listing
unfolding walk_album
walk_from valid [] l = l
walk_from valid (a ∷ rest) l = walk_from valid rest (walk_album valid a l)

unfoldable pub walk : (Text → Bool) → List AlbumEntry → Listing
unfolding walk_from
walk valid albums = walk_from valid albums (record { photos = []; junk = []; empty_dirs = [] })

abbrev pub join : Text → Text → Text
join dir name = dir ++ (b'/' ∷ name)

-- The map `known` of gcTargets, keyed by the joined ids of album and photo.
abbrev pub referenced : List PhotoRef → Text → Text → Bool
referenced refs album_id photo_id =
    any (λ r. text_eq (join r.album_id r.id) (join album_id photo_id)) refs

-- gcTargets: the rows are read after the disk has been listed.
unfoldable pub gc_targets : Listing → List PhotoRef → List DirEntry → ℕ → List Place
unfolding orphans stale_incoming
gc_targets listing refs incoming now =
    orphans (referenced refs) now gc_grace listing ++ stale_incoming now gc_grace incoming

abbrev pub is_named : Text → DirEntry → Bool
is_named name e = text_eq e.name name

abbrev without : Text → Option (List DirEntry) → Option (List DirEntry)
without name none = none
without name (some ds) = some (filter (λ d. not (is_named name d)) ds)

abbrev is_bare : Option (List DirEntry) → Bool
is_bare none = false
is_bare (some []) = true
is_bare (some (d ∷ ds)) = false

-- os.RemoveAll of a path, on what is in photos/.
unfoldable pub remove_all : Place → List AlbumEntry → List AlbumEntry
remove_all (of_album name) disk = filter (λ e. not (is_named name e.entry)) disk
remove_all (of_photo album name) disk =
    map (λ e. if is_named album e.entry then record e { inside = without name e.inside } else e)
      disk
remove_all (of_incoming name) disk = disk

-- os.Remove of the directory above a photo's, which only succeeds when it is empty.
unfoldable pub remove_parent : Place → List AlbumEntry → List AlbumEntry
remove_parent (of_photo album name) disk =
    filter (λ e. not (is_named album e.entry && is_bare e.inside)) disk
remove_parent p disk = disk

-- The loop of gc; `fails` tells which RemoveAll fails, and past its end none does.
unfoldable pub remove_targets : List Bool → List Place → List AlbumEntry → List AlbumEntry
unfolding remove_all remove_parent
remove_targets fails [] disk = disk
remove_targets [] (p ∷ ps) disk = remove_targets [] ps (remove_parent p (remove_all p disk))
remove_targets (true ∷ fails) (p ∷ ps) disk = disk
remove_targets (false ∷ fails) (p ∷ ps) disk =
    remove_targets fails ps (remove_parent p (remove_all p disk))

-- `gc`: `listed` is what Walk reads, `disk` what is there when the removal begins.
unfoldable pub gc :
    (Text → Bool)
    → Bool
    → List PhotoRef
    → List DirEntry
    → ℕ
    → List Bool
    → List AlbumEntry
    → List AlbumEntry
    → List AlbumEntry
unfolding walk gc_targets remove_targets
gc valid dry_run refs incoming now fails listed disk =
    if dry_run
    then disk
    else remove_targets fails (gc_targets (walk valid listed) refs incoming now) disk
