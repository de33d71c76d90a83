-- ===== src/Api/Disposition/Inert.antt =====
-- No file name can break out of the header that names a download, and none is lost in it.
use smugbox.Api.Disposition.{
  is_attr, hex_digit, rfc5987, is_unsafe, ascii_fallback, content_disposition, runes,
}
use smugbox.Common.{
  ℕ, Text, Bool, List, All, ◌≡◌, true, false, ltb, ◌&&◌, not, ◌<◌, ◌*◌, ◌+◌, ◌-◌, ◌==◌, all_below,
  all_below_sound, if◌then◌else◌, arith, refl, ◌∷◌, ◌||◌, ◌/◌, ◌%◌, Bool-cases, [], inl, inr, ◌∙◌,
  map, is_empty, codes, ap, ◌++◌, ◌≤◌, ◌≢◌, leb, any,
}

-- A character that may stand between the quotes of a header: printable, and no quote or backslash.
abbrev pub IsInert : ℕ → Type 0
IsInert c = (0x20 ≤ c) × (c ≤ 0x7e) × (c ≢ b'"') × (c ≢ 92)

abbrev IsKept : ℕ → Type 0
IsKept c = is_unsafe c ≡ false

All-IsInert : (s : Text) → All IsKept s → All IsInert s
All-IsInert [] h = tt
All-IsInert (c ∷ s) (k, h) = (
  (ground (arith, k), ground (arith, k), (λ e. ground (arith, k, e)), (λ e. ground (arith, k, e))),
  All-IsInert s h,
)

abbrev pub IsByte : ℕ → Type 0
IsByte c = c < 256

-- What a client makes of rfc5987: RFC 5987, section 3.2.1.
abbrev pub unhex : ℕ → ℕ
unhex d = if ltb d 58 then d - 48 else d - 55

unfoldable pub decode_ext : Text → Text
decode_ext [] = []
decode_ext (c ∷ []) = c ∷ []
decode_ext (c ∷ h ∷ []) = c ∷ h ∷ []
decode_ext (c ∷ h ∷ l ∷ s) = elim (c == b'%') [
  | true ↦ (16 * unhex h + unhex l) ∷ decode_ext s
  | false ↦ c ∷ decode_ext (h ∷ l ∷ s)
]

-- RFC 5987, section 3.2.1: a character of `value-chars`, written out: a letter, a digit, the sign that
-- begins a code, or one of ! # $ & + - . ^ _ ` | ~.
abbrev pub is_value_char : ℕ → Bool
is_value_char c =
    (leb 65 c && leb c 90)
    || (leb 97 c && leb c 122)
    || (leb 48 c && leb c 57)
    || any (λ d. d == c) (37 ∷ 33 ∷ 35 ∷ 36 ∷ 38 ∷ 43 ∷ 45 ∷ 46 ∷ 94 ∷ 95 ∷ 96 ∷ 124 ∷ 126 ∷ [])

abbrev pub IsValueChar : ℕ → Type 0
IsValueChar c = is_value_char c ≡ true

attr_table : all_below 256 (λ c. not (is_attr c) || (is_value_char c && not (c == b'%'))) ≡ true
attr_table = refl

attr_plain : (c : ℕ) → IsByte c → is_attr c ≡ true → IsValueChar c × ((c == b'%') ≡ false)
attr_plain c b e = picked (is_attr c) (is_value_char c) (c == b'%') e (
    all_below_sound 256 (λ c. not (is_attr c) || (is_value_char c && not (c == b'%'))) c attr_table
      b)
  where
    picked : (p q r : Bool) → p ≡ true → (not p || (q && not r)) ≡ true → (q ≡ true) × (r ≡ false)
    picked false q r e h = absurd (cc)
    picked true false r e h = absurd (cc)
    picked true true false e h = (refl, refl)
    picked true true true e h = absurd (cc)

abbrev is_coded : ℕ → Bool
is_coded c =
    is_value_char (hex_digit (c / 16))
    && (is_value_char (hex_digit (c % 16))
        && (16 * unhex (hex_digit (c / 16)) + unhex (hex_digit (c % 16)) == c))

percent_table : all_below 256 is_coded ≡ true
unfolding hex_digit
percent_table = refl

coded_lem :
    (c : ℕ)
    → is_coded c ≡ true
    → IsValueChar (hex_digit (c / 16))
      × IsValueChar (hex_digit (c % 16))
      × (16 * unhex (hex_digit (c / 16)) + unhex (hex_digit (c % 16)) ≡ c)
coded_lem c row =
    split (is_value_char (hex_digit (c / 16))) (is_value_char (hex_digit (c % 16)))
      (16 * unhex (hex_digit (c / 16)) + unhex (hex_digit (c % 16))) row
  where
    split : (p q : Bool) (n : ℕ) → (p && (q && (n == c))) ≡ true → (p ≡ true) × (q ≡ true) × (n ≡ c)
    split false q n e = absurd (cc)
    split true false n e = absurd (cc)
    split true true n e = (refl, refl, ground (arith, e))

decode_ext-plain : (c : ℕ) (s : Text) → (c == b'%') ≡ false → decode_ext (c ∷ s) ≡ c ∷ decode_ext s
unfolding decode_ext
decode_ext-plain c [] e = refl
decode_ext-plain c (h ∷ []) e = refl
decode_ext-plain c (h ∷ l ∷ s) e = ground (arith, e)

decode_ext-percent :
    (h l : ℕ) (s : Text) → decode_ext (b'%' ∷ h ∷ l ∷ s) ≡ (16 * unhex h + unhex l) ∷ decode_ext s
unfolding decode_ext
decode_ext-percent h l s = refl

rfc5987_lem : (s : Text) → All IsByte s → All IsValueChar (rfc5987 s) × (decode_ext (rfc5987 s) ≡ s)
unfolding rfc5987
rfc5987_lem [] h = (tt, unfold decode_ext in refl)
rfc5987_lem (c ∷ s) (b, h) = elim (Bool-cases (is_attr c)) [
  | inl plain ↦
      let (value, other) = attr_plain c b plain in
      let (rest, back) = rfc5987_lem s h in
      rw plain ((value, rest), decode_ext-plain c (rfc5987 s) other ∙ ap (λ t. c ∷ t) back)
  | inr coded ↦
      let (high, low, value) = coded_lem c (all_below_sound 256 is_coded c percent_table b) in
      let (rest, back) = rfc5987_lem s h in
      rw coded (
        (refl, (high, (low, rest))),
        decode_ext-percent (hex_digit (c / 16)) (hex_digit (c % 16)) (rfc5987 s)
            ∙ (ap (λ n. n ∷ decode_ext (rfc5987 s)) value ∙ ap (λ t. c ∷ t) back),
      )
]

fallback_char : (r : ℕ) → IsKept (if is_unsafe r then b'_' else r)
fallback_char r = elim (Bool-cases (is_unsafe r)) [
  | inl bad ↦ rw bad refl
  | inr good ↦ rw good good
]

ascii_fallback-All : (s : Text) → All IsKept (ascii_fallback s)
unfolding ascii_fallback
ascii_fallback-All s = every (runes s)
  where
    every : (rs : List ℕ) → All IsKept (map (λ r. if is_unsafe r then b'_' else r) rs)
    every [] = tt
    every (r ∷ rs) = (fallback_char r, every rs)

-- The name under which a file is saved.
abbrev pub saved_name : Text → Text
saved_name filename = if is_empty filename then codes "download" else filename

-- Whatever bytes a file name has, the header is the fixed text with two parts of the name in it. The
-- first, between quotes, is printable ASCII without a quote or a backslash, so it cannot end its quotes
-- or the line. The second, which stands without quotes, has only characters that RFC 5987 allows in an
-- extended value, so no semicolon, space or comma ends it; and decoded by that RFC it is the name, byte
-- for byte.
pub content_disposition-decode_ext :
    (filename : Text)
    → All IsByte filename
    → (plain : Text) × (coded : Text) × (content_disposition filename
        ≡ codes "attachment; filename="
          ++ (b'"' ∷ plain ++ (b'"' ∷ codes "; filename*=UTF-8''" ++ coded)))
      × All IsInert plain
      × All IsValueChar coded
      × (decode_ext coded ≡ saved_name filename)
unfolding content_disposition
content_disposition-decode_ext filename h =
    let (values, back) = rfc5987_lem (saved_name filename) (named filename h) in
    (
      ascii_fallback (saved_name filename),
      rfc5987 (saved_name filename),
      refl,
      All-IsInert (ascii_fallback (saved_name filename)) (ascii_fallback-All (saved_name filename)),
      values,
      back,
    )
  where
    named : (s : Text) → All IsByte s → All IsByte (saved_name s)
    named [] h = omega arith
    named (c ∷ s) h = h
