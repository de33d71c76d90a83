-- ===== src/Storage.antt =====
-- The photo files (backend/internal/storage/storage.go). A path is what it is built from: the album's
-- directory, the photo's directory in it, and the file's name. Ids are those that
-- github.com/google/uuid reads and prints back unchanged: `parse_uuid` stands for that package.
pub mod Disk
pub mod Listing
pub mod Confined
use smugbox.Common.{
  ℕ, Text, List, codes, ◌∷◌, Option, none, [], find?, if◌then◌else◌, Bool, some, text_eq, ◌++◌,
  false, not, ◌||◌,
}
use smugbox.Exec.{Result, ok, err, invalid_id}

pub data Variant : Type 0 where
  original large medium small thumb blur : Variant

abbrev pub variant_name : Variant → Text
variant_name original = codes "original"
variant_name large = codes "large"
variant_name medium = codes "medium"
variant_name small = codes "small"
variant_name thumb = codes "thumb"
variant_name blur = codes "blur"

abbrev pub variants : List Variant
variants = original ∷ large ∷ medium ∷ small ∷ thumb ∷ blur ∷ []

-- A variant name from a URL.
unfoldable pub parse_variant : Text → Option Variant
parse_variant s = find? (λ v. text_eq (variant_name v) s) variants

-- The extension of an original that is a video.
abbrev pub original_ext : Text → Option Text
original_ext mime =
    if text_eq mime (codes "video/mp4")
    then some (codes ".mp4")
    else if text_eq mime (codes "video/quicktime")
    then some (codes ".mov")
    else none

-- The name of the file on disk.
unfoldable pub filename : Variant → Text → Text
filename original mime = elim (original_ext mime) [
  | none ↦ codes "original.jpg"
  | some ext ↦ codes "original" ++ ext
]
filename v mime = variant_name v ++ codes ".jpg"

pub record FilePath : Type 0 where
  pub album_id : Text
  pub photo_id : Text
  pub name : Text

abbrev pub valid_id : (Text → Option Text) → Text → Bool
valid_id parse_uuid id = elim (parse_uuid id) [ none ↦ false | some printed ↦ text_eq printed id ]

unfoldable pub album_dir : (Text → Option Text) → Text → Result Text
album_dir parse_uuid album_id = if valid_id parse_uuid album_id then ok album_id else err invalid_id

unfoldable pub photo_dir : (Text → Option Text) → Text → Text → Result (Text × Text)
photo_dir parse_uuid album_id photo_id =
    if not (valid_id parse_uuid album_id) || not (valid_id parse_uuid photo_id)
    then err invalid_id
    else ok (album_id, photo_id)

unfoldable pub file_path : (Text → Option Text) → Text → Text → Variant → Text → Result FilePath
unfolding photo_dir filename
file_path parse_uuid album_id photo_id v mime = elim (photo_dir parse_uuid album_id photo_id) [
  | err e ↦ err e
  | ok dir ↦ ok (record { album_id = album_id; photo_id = photo_id; name = filename v mime })
]
