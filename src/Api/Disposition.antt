-- ===== src/Api/Disposition.antt =====
-- contentDisposition and rfc5987 (backend/internal/api/photos.go): the header that names a download. The
-- loop over the name goes by its runes, the percent-encoding by its bytes.
pub mod Inert
use smugbox.Common.{
  ℕ, Text, Bool, List, [], ◌∷◌, ◌++◌, codes, runes, map, ltb, leb, ◌==◌, ◌||◌, ◌&&◌, any,
  if◌then◌else◌, is_empty, ◌/◌, ◌%◌, ◌+◌,
}

-- The characters besides letters and digits that stand for themselves.
abbrev pub attr_chars : Text
attr_chars = codes "!#$&+-.^_`|~"

abbrev pub is_alnum : ℕ → Bool
is_alnum c = (leb b'a' c && leb c b'z') || (leb b'A' c && leb c b'Z') || (leb b'0' c && leb c b'9')

abbrev pub is_attr : ℕ → Bool
is_attr c = is_alnum c || any (λ d. d == c) attr_chars

-- One digit of %02X.
unfoldable pub hex_digit : ℕ → ℕ
hex_digit n = if ltb n 10 then b'0' + n else 55 + n

abbrev pub percent : ℕ → Text
percent c = b'%' ∷ hex_digit (c / 16) ∷ hex_digit (c % 16) ∷ []

unfoldable pub rfc5987 : Text → Text
rfc5987 [] = []
rfc5987 (c ∷ s) = (if is_attr c then c ∷ [] else percent c) ++ rfc5987 s

abbrev pub is_unsafe : ℕ → Bool
is_unsafe r = ltb r 0x20 || ltb 0x7e r || r == b'"' || r == 92

unfoldable pub ascii_fallback : Text → Text
unfolding runes
ascii_fallback name = map (λ r. if is_unsafe r then b'_' else r) (runes name)

unfoldable pub content_disposition : Text → Text
unfolding ascii_fallback rfc5987
content_disposition filename =
    let name = if is_empty filename then codes "download" else filename in
    codes "attachment; filename="
    ++ (b'"' ∷ ascii_fallback name ++ (b'"' ∷ codes "; filename*=UTF-8''" ++ rfc5987 name))
