-- ===== src/Theme.antt =====
-- The loading of a theme: read, themeRoot, readManifest and readFile of backend/internal/theme/theme.go.
-- `Dir` is the listing of a folder or zip in the order of fs.WalkDir. json.Decoder and strings.ToLower are
-- arguments; a "smugbox" that is no natural number counts as one that does not decode. The choice of
-- the source by `Load` and the hash of the files are left out.
pub mod Servable
use smugbox.Api.Download.{path_ext}
use smugbox.Exec.{Result, ok, err, internal, client}
use smugbox.Common.{
  ℕ, Text, ◌∷◌, List, Bool, codes, Option, if◌then◌else◌, [], starts_with, false, ltb, text_eq,
  is_empty, ◌==◌, trim_space, ◌++◌, any, some, ◌||◌, length, not, is_some, none, ◌-◌, find?, ◌&&◌,
}

-- The rest of the folder comes last: a regular file, a folder, a link or a file of another kind with what
-- is read through it (none where nothing is there), a regular file that cannot be read, and a folder
-- that cannot be listed.
pub data Dir : Type 0 where
  end : Dir
  plain : (name content : Text) → Dir → Dir
  folder : (name : Text) → Dir → Dir → Dir
  special : (name : Text) → Option Text → Dir → Dir
  unreadable locked : (name : Text) → Dir → Dir

abbrev pub max_served_bytes : ℕ
max_served_bytes = 10485760

abbrev pub max_manifest_bytes : ℕ
max_manifest_bytes = 65536

abbrev pub api_version : ℕ
api_version = 1

abbrev pub content_types : List (Text × Text)
content_types =
    (codes ".css", codes "text/css; charset=utf-8")
    ∷ (codes ".woff2", codes "font/woff2")
    ∷ (codes ".woff", codes "font/woff")
    ∷ (codes ".svg", codes "image/svg+xml")
    ∷ (codes ".png", codes "image/png")
    ∷ (codes ".jpg", codes "image/jpeg")
    ∷ (codes ".jpeg", codes "image/jpeg")
    ∷ (codes ".webp", codes "image/webp")
    ∷ (codes ".avif", codes "image/avif")
    ∷ []

abbrev pub layouts : List Text
layouts = codes "rows" ∷ codes "columns" ∷ codes "masonry" ∷ []

pub record Manifest : Type 0 where
  pub smugbox : ℕ
  pub name : Text
  pub version : Text
  pub dark : Bool
  pub gallery : Text

pub record Loaded : Type 0 where
  pub remaining : ℕ
  pub files : List (Text × Text)
  pub skipped : List Text

pub record Theme : Type 0 where
  pub manifest : Manifest
  pub files : List (Text × Text)
  pub skipped : List Text

abbrev pub theme_json : Text
theme_json = codes "theme.json"

abbrev pub theme_css : Text
theme_css = codes "theme.css"

abbrev pub junk : Text → Bool
junk name = starts_with (codes ".") name || text_eq name (codes "__MACOSX")

abbrev pub ext_of : Option Text → Text
ext_of none = []
ext_of (some ext) = ext

abbrev pub type_of : Option (Text × Text) → Option Text
type_of none = none
type_of (some (ext, mime)) = some mime

abbrev pub then_do : {A B : Type 0} → Result A → (A → Result B) → Result B
then_do (ok a) f = f a
then_do (err e) f = err e

abbrev pub has_entry : Text → Dir → Bool
has_entry n end = false
has_entry n (plain m c rest) = text_eq m n || has_entry n rest
has_entry n (folder m d rest) = text_eq m n || has_entry n rest
has_entry n (special m o rest) = (text_eq m n && is_some o) || has_entry n rest
has_entry n (unreadable m rest) = text_eq m n || has_entry n rest
has_entry n (locked m rest) = text_eq m n || has_entry n rest

unfoldable pub without_junk : Dir → Dir
without_junk end = end
without_junk (plain n c rest) = if junk n then without_junk rest else plain n c (without_junk rest)
without_junk (folder n d rest) =
    if junk n then without_junk rest else folder n d (without_junk rest)
without_junk (special n o rest) =
    if junk n then without_junk rest else special n o (without_junk rest)
without_junk (unreadable n rest) =
    if junk n then without_junk rest else unreadable n (without_junk rest)
without_junk (locked n rest) = if junk n then without_junk rest else locked n (without_junk rest)

abbrev pub sole_folder : Dir → Result Dir
sole_folder (folder n inside end) =
    if has_entry theme_json inside then ok inside else err (client "no theme.json")
sole_folder d = err (client "no theme.json")

-- `themeRoot`
unfoldable pub theme_root : Dir → Result Dir
unfolding without_junk
theme_root d = if has_entry theme_json d then ok d else sole_folder (without_junk d)

-- `readFile`
abbrev pub read_limited : Text → ℕ → Result Text
read_limited content limit =
    if ltb limit (length content) then err (client "too large") else ok content

abbrev pub read_through : Option Text → ℕ → Result Text
read_through none limit = err internal
read_through (some c) limit = read_limited c limit

unfoldable pub read_named : Text → ℕ → Dir → Result Text
read_named n limit end = err internal
read_named n limit (plain m c rest) =
    if text_eq m n then read_limited c limit else read_named n limit rest
read_named n limit (folder m d rest) = if text_eq m n then err internal else read_named n limit rest
read_named n limit (special m o rest) =
    if text_eq m n then read_through o limit else read_named n limit rest
read_named n limit (unreadable m rest) =
    if text_eq m n then err internal else read_named n limit rest
read_named n limit (locked m rest) = if text_eq m n then err internal else read_named n limit rest

abbrev pub with_default : Manifest → Manifest
with_default m = if is_empty m.gallery then record m { gallery = codes "rows" } else m

abbrev pub checked_manifest : Manifest → Result Manifest
checked_manifest m =
    if m.smugbox == 0
    then err (client "smugbox is required")
    else if not (m.smugbox == api_version)
    then err (client "smugbox is not supported")
    else if is_empty (trim_space m.name)
    then err (client "name is required")
    else if not (any (λ l. text_eq l m.gallery) layouts)
    then err (client "gallery must be a layout")
    else ok m

abbrev pub decoded_manifest : Option Manifest → Result Manifest
decoded_manifest none = err (client "theme.json")
decoded_manifest (some m) = checked_manifest (with_default m)

module _ (decode : Text → Option Manifest) (lower : Text → Text) where
  -- `readManifest`
  unfoldable pub read_manifest : Dir → Result Manifest
  unfolding read_named trim_space
  read_manifest d =
      then_do (read_named theme_json max_manifest_bytes d) (λ c. decoded_manifest (decode c))

  -- The Content-Type of a path, if it is one that is served.
  unfoldable pub content_type : Text → Option Text
  unfolding path_ext
  content_type p =
      type_of (find? (λ (k : Text × Text). text_eq k.0 (lower (ext_of (path_ext p)))) content_types)

  abbrev pub put_file : Text → Text → Loaded → Result Loaded
  put_file p c st =
      if ltb st.remaining (length c)
      then err (client "served files exceed 10 MB")
      else ok (record st { remaining = st.remaining - length c; files = st.files ++ (p, c) ∷ [] })

  abbrev pub skip : Text → Loaded → Result Loaded
  skip p st = ok (record st { skipped = st.skipped ++ p ∷ [] })

  -- A regular file: it is read only if its kind is served.
  abbrev pub take_file : Text → (Loaded → Result Loaded) → Loaded → Result Loaded
  take_file p reading st =
      if text_eq p theme_json
      then ok st
      else if is_some (content_type p)
      then reading st
      else skip p st

  abbrev pub unless_junk : Text → Result Loaded → Loaded → Result Loaded
  unless_junk n r st = if junk n then ok st else r

  -- The walk below the path `at`, which ends in a slash unless it is empty.
  unfoldable pub walk : Text → Dir → Loaded → Result Loaded
  unfolding content_type
  walk at end st = ok st
  walk at (plain n c rest) st =
      then_do (unless_junk n (take_file (at ++ n) (put_file (at ++ n) c) st) st) (walk at rest)
  walk at (folder n inside rest) st =
      then_do (unless_junk n (walk (at ++ (n ++ (b'/' ∷ []))) inside st) st) (walk at rest)
  walk at (special n o rest) st =
      then_do (unless_junk n (if text_eq (at ++ n) theme_json then ok st else skip (at ++ n) st) st)
        (walk at rest)
  walk at (unreadable n rest) st =
      then_do (unless_junk n (take_file (at ++ n) (λ s. err internal) st) st) (walk at rest)
  walk at (locked n rest) st = then_do (unless_junk n (err internal) st) (walk at rest)

  abbrev pub with_css : Manifest → Loaded → Result Theme
  with_css m st =
      if any (λ (f : Text × Text). text_eq f.0 theme_css) st.files
      then ok (record { manifest = m; files = st.files; skipped = st.skipped })
      else err (client "no theme.css next to theme.json")

  abbrev pub nothing_loaded : Loaded
  nothing_loaded = record { remaining = max_served_bytes; files = []; skipped = [] }

  -- `read`
  unfoldable pub read : Dir → Result Theme
  unfolding theme_root read_manifest walk
  read d =
      then_do (theme_root d)
        λ root. then_do (read_manifest root) λ m. then_do (walk [] root nothing_loaded) (with_css m)
