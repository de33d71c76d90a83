-- ===== src/Common/Utf8.antt =====
-- The text operations of Go's language and library that the server uses: the code points of a
-- string, their encoding, strings.TrimSpace and path.Base.
use smugbox.Common.Tests.{Option-cases, ◌==◌, leb, ltb, if◌then◌else◌}
use smugbox.Common.Texts.{Text, is_empty}
use smugbox.Common.Lists.{length, any, All, All-append}
use mathlib.Core.Path.{◌≡◌, refl, sym, subst}
use mathlib.Core.Logic.{inl, inr}
use native.Mathlib.Omega.{arith}
use Prim.Native.Nat.{ℕ, zero, suc, ◌+◌, ◌-◌, ◌*◌, ◌/◌, ◌%◌}
use mathlib.Core.Bool.{Bool, true, false, ◌&&◌}
use mathlib.Core.Option.{Option, none, some}
use mathlib.Core.List.{List, [], ◌∷◌, map, reverse, reverse-cons}

abbrev byte_at : ℕ → Text → ℕ
byte_at i [] = 0
byte_at zero (c ∷ s) = c
byte_at (suc i) (c ∷ s) = byte_at i s

abbrev within : ℕ → ℕ → ℕ → Bool
within lo hi b = leb lo b && leb b hi

-- The bounds of the byte behind a leading byte.
abbrev second_ok : ℕ → ℕ → Bool
second_ok a b =
    within (if a == 0xe0 then 0xa0 else if a == 0xf0 then 0x90 else 0x80)
      (if a == 0xed then 0x9f else if a == 0xf4 then 0x8f else 0xbf) b

-- The code point at the front, and how many bytes behind the first one belong to it; what is not
-- UTF-8 is U+FFFD, a byte at a time.
unfoldable pub first_rune : ℕ → Text → ℕ × ℕ
first_rune a s =
    let b = byte_at 0 s in
    let c = byte_at 1 s in
    let d = byte_at 2 s in
    if ltb a 0x80
    then (a, 0)
    else if within 0xc2 0xdf a && second_ok a b
    then ((a - 0xc0) * 64 + (b - 0x80), 1)
    else if within 0xe0 0xef a && (second_ok a b && within 0x80 0xbf c)
    then ((a - 0xe0) * 4096 + (b - 0x80) * 64 + (c - 0x80), 2)
    else if within 0xf0 0xf4 a && (second_ok a b && (within 0x80 0xbf c && within 0x80 0xbf d))
    then ((a - 0xf0) * 262144 + (b - 0x80) * 4096 + (c - 0x80) * 64 + (d - 0x80), 3)
    else (0xfffd, 0)

unfoldable pub runes_skip : ℕ → Text → List ℕ
unfolding first_rune
runes_skip n [] = []
runes_skip (suc n) (a ∷ s) = runes_skip n s
runes_skip zero (a ∷ s) = let (r, n) = first_rune a s in r ∷ runes_skip n s

-- `for _, r := range s`
unfoldable pub runes : Text → List ℕ
unfolding runes_skip
runes s = runes_skip 0 s

-- strings.Builder.WriteRune
unfoldable pub encode_rune : ℕ → Text
encode_rune r =
    if ltb r 0x80
    then r ∷ []
    else if ltb r 0x800
    then (0xc0 + r / 64) ∷ (0x80 + r % 64) ∷ []
    else if ltb r 0x10000
    then (0xe0 + r / 4096) ∷ (0x80 + r / 64 % 64) ∷ (0x80 + r % 64) ∷ []
    else (0xf0 + r / 262144) ∷ (0x80 + r / 4096 % 64) ∷ (0x80 + r / 64 % 64) ∷ (0x80 + r % 64) ∷ []

-- What stands behind a prefix.
abbrev pub strip_prefix : Text → Text → Option Text
strip_prefix [] s = some s
strip_prefix (c ∷ p) [] = none
strip_prefix (c ∷ p) (d ∷ s) = let rest = strip_prefix p s in if c == d then rest else none

abbrev pub starts_with : Text → Text → Bool
starts_with p s = elim (strip_prefix p s) [ none ↦ false | some rest ↦ true ]

abbrev strip_first : List Text → Text → Option Text
strip_first [] s = none
strip_first (p ∷ ps) s = elim (strip_prefix p s) [ none ↦ strip_first ps s | some rest ↦ some rest ]

-- The encodings of the code points that unicode.IsSpace accepts.
abbrev spaces : List Text
spaces =
    (0x09 ∷ [])
    ∷ (0x0a ∷ [])
    ∷ (0x0b ∷ [])
    ∷ (0x0c ∷ [])
    ∷ (0x0d ∷ [])
    ∷ (0x20 ∷ [])
    ∷ (0xc2 ∷ 0x85 ∷ [])
    ∷ (0xc2 ∷ 0xa0 ∷ [])
    ∷ (0xe1 ∷ 0x9a ∷ 0x80 ∷ [])
    ∷ (0xe2 ∷ 0x80 ∷ 0x80 ∷ [])
    ∷ (0xe2 ∷ 0x80 ∷ 0x81 ∷ [])
    ∷ (0xe2 ∷ 0x80 ∷ 0x82 ∷ [])
    ∷ (0xe2 ∷ 0x80 ∷ 0x83 ∷ [])
    ∷ (0xe2 ∷ 0x80 ∷ 0x84 ∷ [])
    ∷ (0xe2 ∷ 0x80 ∷ 0x85 ∷ [])
    ∷ (0xe2 ∷ 0x80 ∷ 0x86 ∷ [])
    ∷ (0xe2 ∷ 0x80 ∷ 0x87 ∷ [])
    ∷ (0xe2 ∷ 0x80 ∷ 0x88 ∷ [])
    ∷ (0xe2 ∷ 0x80 ∷ 0x89 ∷ [])
    ∷ (0xe2 ∷ 0x80 ∷ 0x8a ∷ [])
    ∷ (0xe2 ∷ 0x80 ∷ 0xa8 ∷ [])
    ∷ (0xe2 ∷ 0x80 ∷ 0xa9 ∷ [])
    ∷ (0xe2 ∷ 0x80 ∷ 0xaf ∷ [])
    ∷ (0xe2 ∷ 0x81 ∷ 0x9f ∷ [])
    ∷ (0xe3 ∷ 0x80 ∷ 0x80 ∷ [])
    ∷ []

-- A text of `n` bytes holds no more than `n` spaces.
trim_front : ℕ → List Text → Text → Text
trim_front zero ps s = s
trim_front (suc n) ps s = elim (strip_first ps s) [ none ↦ s | some rest ↦ trim_front n ps rest ]

-- strings.TrimSpace: the right end is the left end of the reversed text.
unfoldable pub trim_space : Text → Text
unfolding trim_front
trim_space s =
    let left = trim_front (length s) spaces s in
    reverse (trim_front (length left) (map reverse spaces) (reverse left))

abbrev is_slash : ℕ → Bool
is_slash c = c == b'/'

abbrev drop_slashes : Text → Text
drop_slashes [] = []
drop_slashes (c ∷ s) =
    let rest = drop_slashes s in if is_empty rest && is_slash c then [] else c ∷ rest

abbrev last_part : Text → Text
last_part [] = []
last_part (c ∷ s) = let rest = last_part s in if any is_slash (c ∷ s) then rest else c ∷ s

abbrev base_of : Text → Text
base_of [] = b'/' ∷ []
base_of (c ∷ s) = last_part (c ∷ s)

-- path.Base
unfoldable pub path_base : Text → Text
path_base [] = b'.' ∷ []
path_base (c ∷ s) = base_of (drop_slashes (c ∷ s))

module _ (P : ℕ → Type 0) where
  All-strip_prefix : (p s rest : Text) → strip_prefix p s ≡ some rest → All P s → All P rest
  All-strip_prefix [] s rest e h = ground arith
  All-strip_prefix (c ∷ p) [] rest e h = absurd (cc)
  All-strip_prefix (c ∷ p) (d ∷ s) rest e (q, h) = All-strip_prefix p s rest (ground (arith, e)) h

  All-strip_first :
      (ps : List Text) (s rest : Text) → strip_first ps s ≡ some rest → All P s → All P rest
  All-strip_first [] s rest e h = absurd (cc)
  All-strip_first (p ∷ ps) s rest e h = elim (Option-cases (strip_prefix p s)) [
    | inl other ↦ All-strip_first ps s rest (ground (arith, e, other)) h
    | inr (r, found) ↦ All-strip_prefix p s rest (ground (arith, e, found)) h
  ]

  All-trim_front : (n : ℕ) (ps : List Text) (s : Text) → All P s → All P (trim_front n ps s)
  unfolding trim_front
  All-trim_front zero ps s h = h
  All-trim_front (suc n) ps s h = elim (Option-cases (strip_first ps s)) [
    | inl other ↦
        let stopped : trim_front (suc n) ps s ≡ s = rw (other, trim_front) refl in
        subst (All P) (sym stopped) h
    | inr (r, found) ↦
        let went_on : trim_front (suc n) ps s ≡ trim_front n ps r = rw (found, trim_front) refl in
        subst (All P) (sym went_on) (All-trim_front n ps r (All-strip_first ps s r found h))
  ]

  All-reverse : (s : Text) → All P s → All P (reverse s)
  All-reverse [] h = tt
  All-reverse (c ∷ s) (q, h) =
      subst (All P) (sym (reverse-cons c s))
        (All-append P (reverse s) (c ∷ []) (All-reverse s h) (q, tt))

  -- What holds of every byte holds of those that are left.
  pub All-trim_space : (s : Text) → All P s → All P (trim_space s)
  unfolding trim_space
  All-trim_space s h =
      let left = trim_front (length s) spaces s in
      All-reverse (trim_front (length left) (map reverse spaces) (reverse left)) (
        All-trim_front (length left) (map reverse spaces) (reverse left)
          (All-reverse left (All-trim_front (length s) spaces s h)))
