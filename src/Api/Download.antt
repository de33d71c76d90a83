-- ===== src/Api/Download.antt =====
-- downloadAlbum (backend/internal/api/download.go). `lower` stands for strings.ToLower. The map `seen` is a
-- list of keys with their counts, the latest first; a key that is not in it counts 0. The answer is
-- the entries of the zip; that the client goes away while it is written is left out.
pub mod Names
pub mod Distinct
pub mod Zipped
use smugbox.Api.{or_internal, found_or}
use smugbox.Api.Visitor.{visible_album}
use smugbox.Auth.Session.{Codec}
use smugbox.Slug.{valid_slug}
use smugbox.World.{World, query, io}
use smugbox.Media.{Tools}
use smugbox.Db.{Photo}
use smugbox.Db.Listed.{list_ready_photos}
use smugbox.Storage.{file_path, original}
use smugbox.Storage.Disk.{read_file}
use smugbox.Exec.{Exec, Result, ok, err, fail, return, lift, gets, attempt, answered, ◌>>=◌, ◌>>◌}
use smugbox.Common.{
  ℕ, Text, Bool, List, Option, none, some, [], ◌∷◌, ◌++◌, codes, is_empty, any, not, text_eq,
  if◌then◌else◌, ◌==◌, ◌+◌, ◌-◌, ◌/◌, ◌%◌, ltb, leb, take, length, ◌&&◌, zero, suc,
}

abbrev pub max_concurrent_zips : ℕ
max_concurrent_zips = 2

abbrev pub Seen : Type 0
Seen = List (Text × ℕ)

abbrev pub times_seen : Text → Seen → ℕ
times_seen k [] = 0
times_seen k ((j, n) ∷ seen) = if text_eq j k then n else times_seen k seen

-- path.Ext: from the last dot of the last element on.
unfoldable pub path_ext : Text → Option Text
path_ext [] = none
path_ext (c ∷ s) = elim (path_ext s) [
  | some ext ↦ some ext
  | none ↦ if c == b'.' && not (any (λ d. d == b'/') s) then some (c ∷ s) else none
]

abbrev pub ext_or_empty : Option Text → Text
ext_or_empty none = []
ext_or_empty (some ext) = ext

-- %d, from the last digit on, by fuel: a number has no more digits than its value and one.
unfoldable pub digits : ℕ → ℕ → Text → Text
digits zero n acc = acc
digits (suc f) n acc =
    let more = digits f (n / 10) ((b'0' + n % 10) ∷ acc) in
    if ltb n 10 then (b'0' + n) ∷ acc else more

abbrev pub decimal : ℕ → Text
decimal n = digits (suc n) n []

unfoldable pub candidate : Text → Text → ℕ → Text
unfolding digits
candidate base ext i = base ++ (b'-' ∷ decimal i ++ ext)

pub record ZipEntry : Type 0 where
  pub name : Text
  pub content : Text

unfoldable pub open_original : Tools → Photo → Exec World (Option Text)
open_original tools p = do
  path ← lift (file_path tools.parse_uuid p.album_id p.id original p.mime_type)
  io
  gets (λ w. read_file path w.disk)

module _ (lower : Text → Text) where
  -- The loop, on fuel; it goes on while the name has been seen.
  unfoldable pub free_name : ℕ → Text → Text → ℕ → Seen → Text
  free_name zero base ext i seen = candidate base ext i
  free_name (suc f) base ext i seen =
      let more = free_name f base ext (suc i) seen in
      if times_seen (lower (candidate base ext i)) seen == 0 then candidate base ext i else more

  -- A name is given out and counted.
  abbrev pub numbered : Text → ℕ → Seen → Text × Seen
  numbered name n seen =
      let ext = ext_or_empty (path_ext name) in
      let base = take (length name - length ext) name in
      let free = free_name (suc (length seen)) base ext (suc n) seen in
      (free, (lower free, 1) ∷ seen)

  -- `uniqueZipName`
  unfoldable pub unique_zip_name : Seen → Text → Text × Seen
  unfolding free_name path_ext
  unique_zip_name seen name =
      let named = if is_empty name then codes "photo.jpg" else name in
      let n = times_seen (lower named) seen in
      let counted = (lower named, suc n) ∷ seen in
      if n == 0 then (named, counted) else numbered named n counted

  module _ (tools : Tools) where
    abbrev pub with_entry :
        (Seen → Exec World (List ZipEntry))
        → Seen
        → Photo
        → Result (Option Text)
        → Exec World (List ZipEntry)
    with_entry more seen p (ok (some content)) =
        let (name, seen') = unique_zip_name seen p.filename in
        more seen' >>= λ rest. return (record { name = name; content = content } ∷ rest)
    with_entry more seen p r = more seen

    -- The loop over the photos; an original that cannot be opened is passed over.
    unfoldable pub zip_entries : List Photo → Seen → Exec World (List ZipEntry)
    unfolding open_original unique_zip_name
    zip_entries [] seen = return []
    zip_entries (p ∷ ps) seen = do
      r ← attempt (open_original tools p)
      with_entry (zip_entries ps) seen p r

    -- `downloadAlbum`, while `running` other downloads are under way.
    unfoldable pub download_album : Codec → ℕ → Option Text → ℕ → Text → Exec World (List ZipEntry)
    unfolding visible_album zip_entries valid_slug or_internal
    download_album codec now cookie running slug =
        if not (valid_slug slug) then fail (answered 404 "album_not_found") else do
          a ← visible_album tools codec now cookie slug
          if leb max_concurrent_zips running then fail (answered 503 "too_many_downloads") else do
            r ← attempt (query (λ t. ok (list_ready_photos a.id t)))
            ps ← or_internal r
            zip_entries ps []
