-- ===== src/Library/Metadata.antt =====
-- The text fields of an upload (parseMetadata, parseKeywords and SanitizeFilename of
-- backend/internal/library/ingest.go). `Tools` stands for encoding/json.
pub mod Sanitized
use smugbox.Common.{
  ℕ, String, Option, Bool, Text, encode_rune, if◌then◌else◌, trim_space, List, [], ◌==◌, ltb, ◌∷◌,
  text_eq, path_base, filter, is_empty, some, ◌||◌, ◌++◌, codes, runes, not, starts_with, length,
  none, leb, map, ◌&&◌, take,
}
use smugbox.Db.{Photo}
use smugbox.Exec.{Result, err, ok, client}
use smugbox.Media.{Tools}

abbrev pub max_lr_uuid_len : ℕ
max_lr_uuid_len = 200

abbrev pub max_filename_len : ℕ
max_filename_len = 255

abbrev pub max_taken_at_len : ℕ
max_taken_at_len = 64

-- A form's text fields, by name.
abbrev pub Fields : Type 0
Fields = String → Option Text

abbrev pub field_or_empty : Option Text → Text
field_or_empty none = []
field_or_empty (some v) = v

abbrev pub is_unsafe : ℕ → Bool
is_unsafe r =
    r == b'/'
    || (r == 0x5c
        || (r == 0x22
            || (r == b':'
                || (r == b'*' || (r == b'?' || (r == b'<' || (r == b'>' || r == b'|')))))))

-- unicode.IsControl
abbrev pub is_control : ℕ → Bool
is_control r = ltb r 0x20 || (leb 0x7f r && ltb r 0xa0)

-- One round of the loop: what is written for a code point.
unfoldable pub clean_rune : ℕ → Text
clean_rune r = if is_unsafe r then b'_' ∷ [] else if is_control r then [] else encode_rune r

unfoldable pub clean_runes : List ℕ → Text
unfolding clean_rune encode_rune
clean_runes [] = []
clean_runes (r ∷ rs) = clean_rune r ++ clean_runes rs

abbrev pub is_dots : Text → Bool
is_dots s = text_eq s (codes ".") || text_eq s (codes "..")

abbrev pub to_slash : ℕ → ℕ
to_slash c = if c == 0x5c then b'/' else c

-- The base name without the characters that are unsafe in a header or a zip entry.
unfoldable pub sanitize_filename : Text → Text
unfolding clean_runes trim_space path_base runes
sanitize_filename name =
    let out = trim_space (clean_runes (runes (path_base (map to_slash name)))) in
    if is_dots out
    then []
    else if ltb max_filename_len (length out)
    then take max_filename_len out
    else out

abbrev split_comma_at : ℕ → List Text → List Text
split_comma_at c [] = (c ∷ []) ∷ []
split_comma_at c (part ∷ parts) = if c == b',' then [] ∷ part ∷ parts else (c ∷ part) ∷ parts

-- strings.Split(s, ",")
unfoldable pub split_comma : Text → List Text
split_comma [] = [] ∷ []
split_comma (c ∷ s) = split_comma_at c (split_comma s)

abbrev trimmed : List Text → List Text
trimmed ks = filter (λ k. not (is_empty k)) (map trim_space ks)

abbrev keyword_list : Option (List Text) → Result (List Text)
keyword_list none = err (client "invalid_keywords")
keyword_list (some out) = ok (trimmed out)

-- A JSON array of strings, or a list with commas.
unfoldable pub parse_keywords : (Text → Option (List Text)) → Text → Result (List Text)
unfolding split_comma trim_space
parse_keywords json_strings v =
    let s = trim_space v in
    if is_empty s
    then ok []
    else if starts_with (codes "[") s
    then keyword_list (json_strings s)
    else ok (trimmed (trimmed (split_comma s)))

abbrev pub Edit : Type 0
Edit = Photo → Photo

abbrev pub no_edit : Edit
no_edit p = p

unfoldable pub edit_filename : Option Text → Edit
unfolding sanitize_filename
edit_filename none p = p
edit_filename (some v) p =
    if is_empty (sanitize_filename v) then p else record p { filename = sanitize_filename v }

unfoldable pub edit_title : Option Text → Edit
edit_title none p = p
edit_title (some v) p = record p { title = trim_space v }

unfoldable pub edit_caption : Option Text → Edit
edit_caption none p = p
edit_caption (some v) p = record p { caption = trim_space v }

unfoldable pub edit_taken_at : Option Text → Result Edit
edit_taken_at none = ok no_edit
edit_taken_at (some v) =
    if ltb max_taken_at_len (length (trim_space v))
    then err (client "invalid_taken_at")
    else ok (λ p. record p { taken_at = trim_space v })

abbrev pub set_keywords : Result (List Text) → Result Edit
set_keywords (err e) = err e
set_keywords (ok kws) = ok (λ p. record p { keywords = kws })

unfoldable pub edit_keywords : (Text → Option (List Text)) → Option Text → Result Edit
unfolding parse_keywords
edit_keywords json_strings none = ok no_edit
edit_keywords json_strings (some v) = set_keywords (parse_keywords json_strings v)

abbrev pub set_exif : Option Text → Result Edit
set_exif none = err (client "invalid_exif")
set_exif (some exif) = ok (λ p. record p { exif = exif })

-- A JSON object, written back by Marshal; an empty field clears it.
unfoldable pub edit_exif : (Text → Option Text) → Option Text → Result Edit
edit_exif json_object none = ok no_edit
edit_exif json_object (some v) =
    if is_empty (trim_space v)
    then ok (λ p. record p { exif = [] })
    else set_exif (json_object (trim_space v))

abbrev pub then_edit : Result Edit → (Edit → Result Edit) → Result Edit
then_edit (err e) f = err e
then_edit (ok a) f = f a

-- The first field that is wrong decides the error; the edits are made in the order of the fields.
unfoldable pub parse_metadata : Tools → Fields → Result Edit
unfolding edit_filename edit_title edit_caption edit_taken_at edit_keywords edit_exif
parse_metadata tools fields = then_edit (edit_taken_at (fields "taken_at")) λ taken_at.
    then_edit (edit_keywords tools.json_strings (fields "keywords")) λ keywords.
      then_edit (edit_exif tools.json_object (fields "exif")) λ exif. ok (λ p. exif (
        keywords (
          taken_at (
            edit_caption (fields "caption")
              (edit_title (fields "title") (edit_filename (fields "filename") p))))))
