-- ===== src/Slug.antt =====
-- URL slugs (backend/internal/api/slug.go, and validSlug of backend/internal/api/access.go).
-- `slugify` reads the code points of the name's NFKD form, which golang.org/x/text computes, and
-- the test for combining marks is the one of the Unicode tables: both are arguments.
pub mod Valid
pub mod Words
use smugbox.Common.{
  ℕ, Bool, trim_left, Text, List, leb, ◌==◌, if◌then◌else◌, ◌∷◌, trim_right, codes, true, not, map,
  Option, ◌&&◌, ◌||◌, ◌++◌, ltb, false, length, ◌%◌, suc, [], ◌+◌, take, none, zero, some, drop,
}

abbrev pub max_slug_len : ℕ
max_slug_len = 80

abbrev pub slug_retries : ℕ
slug_retries = 10

abbrev pub is_lower : ℕ → Bool
is_lower r = leb b'a' r && leb r b'z'

abbrev pub is_digit : ℕ → Bool
is_digit r = leb b'0' r && leb r b'9'

abbrev pub is_upper : ℕ → Bool
is_upper r = leb b'A' r && leb r b'Z'

abbrev pub is_dash : ℕ → Bool
is_dash c = c == b'-'

-- One round of the loop: what is written for a code point, and whether a dash stands last then.
unfoldable pub slug_rune : (ℕ → Bool) → Bool → ℕ → Text × Bool
slug_rune is_mark last_dash r =
    if is_lower r || is_digit r
    then (r ∷ [], false)
    else if is_upper r
    then ((r + 32) ∷ [], false)
    else if is_mark r
    then ([], last_dash)
    else if last_dash
    then ([], true)
    else (b'-' ∷ [], true)

unfoldable pub slug_loop : (ℕ → Bool) → Bool → List ℕ → Text
unfolding slug_rune
slug_loop is_mark last_dash [] = []
slug_loop is_mark last_dash (r ∷ rs) =
    let (written, last) = slug_rune is_mark last_dash r in written ++ slug_loop is_mark last rs

unfoldable pub trim_dashes : Text → Text
unfolding trim_left trim_right
trim_dashes s = trim_right is_dash (trim_left is_dash s)

abbrev pub shorten : Text → Text
shorten s = if ltb max_slug_len (length s) then trim_dashes (take max_slug_len s) else s

abbrev pub or_album : Text → Text
or_album [] = codes "album"
or_album (c ∷ s) = c ∷ s

unfoldable pub slugify : (ℕ → Bool) → List ℕ → Text
unfolding slug_loop trim_dashes
slugify is_mark runes = or_album (shorten (trim_dashes (slug_loop is_mark true runes)))

-- The automaton of ^[a-z0-9]+(-[a-z0-9]+)*$; a letter or digit must follow where the flag is set.
unfoldable pub slug_re : Bool → Text → Bool
slug_re need [] = not need
slug_re need (c ∷ s) =
    let word = slug_re false s in
    let next = slug_re true s in
    if is_lower c || is_digit c then word else is_dash c && not need && next

unfoldable pub valid_slug : Text → Bool
unfolding slug_re
valid_slug s = leb (length s) (max_slug_len + 5) && slug_re true s

-- A letter or digit of a slug.
abbrev pub is_word : ℕ → Bool
is_word c = is_lower c || is_digit c

abbrev pub slug_suffix_alphabet : Text
slug_suffix_alphabet = codes "abcdefghijklmnopqrstuvwxyz0123456789"

abbrev pub char_at : Text → ℕ → ℕ
char_at [] i = 0
char_at (c ∷ s) zero = c
char_at (c ∷ s) (suc i) = char_at s i

abbrev pub suffix_chars : List ℕ → Text
suffix_chars bytes = map (λ b. char_at slug_suffix_alphabet (b % 36)) bytes

-- `n` characters from the bytes of the random source; none where it ends early. Beside them stands
-- what is left of the source.
unfoldable pub slug_suffix : List ℕ → ℕ → Option (Text × List ℕ)
slug_suffix random n =
    if ltb (length random) n then none else some (suffix_chars (take n random), drop n random)
