-- ===== src/Slug/Valid.antt =====
-- Whatever a name holds, its slug is one that the server accepts again.
use smugbox.Slug.{
  slugify, slug_loop, slug_re, trim_dashes, valid_slug, shorten, is_lower, is_dash, max_slug_len,
  is_digit, or_album, suffix_chars, slug_suffix, is_word, char_at, slug_suffix_alphabet,
}
use smugbox.Common.{
  Bool, trim_left, trim_right, Text, ℕ, true, List, ◌≡◌, length, ◌∷◌, take, [], ◌≤◌, ◌++◌, arith,
  ◌||◌, inl, false, ◌⊎◌, length-trim_right, suc, inr, refl, if◌then◌else◌, Bool-cases, zero, ◌&&◌,
  ltb, not, length-take, all, ◌<◌, ap, some, ◌%◌, length-append, all_below, all_below_sound,
}

-- Letters and digits with single dashes between them; one dash may stand at the end.
dashed : Bool → Text → Bool
dashed need [] = true
dashed need (c ∷ s) =
    let word = dashed false s in
    let next = dashed true s in
    if is_lower c || is_digit c then word else is_dash c && not need && next

slug_loop-dashed :
    (is_mark : ℕ → Bool) (last : Bool) (runes : List ℕ)
    → dashed last (slug_loop is_mark last runes) ≡ true
unfolding slug_loop dashed
slug_loop-dashed is_mark last [] = refl
slug_loop-dashed is_mark last (r ∷ rs) = ground (
  arith,
  slug_loop-dashed is_mark false rs,
  slug_loop-dashed is_mark true rs,
  slug_loop-dashed is_mark last rs,
)

trim_left_of_dashed : (s : Text) → dashed true s ≡ true → trim_left is_dash s ≡ s
unfolding dashed trim_left
trim_left_of_dashed [] h = refl
trim_left_of_dashed (c ∷ s) h = ground arith

-- A trailing dash is all that can be wrong.
trim_right_of_dashed :
    (need : Bool) (s : Text)
    → dashed need s ≡ true
    → (trim_right is_dash s ≡ []) ⊎ (slug_re need (trim_right is_dash s) ≡ true)
unfolding dashed trim_right slug_re
trim_right_of_dashed need [] h = inl refl
trim_right_of_dashed need (c ∷ s) h =
    ground (arith, trim_right_of_dashed false s, trim_right_of_dashed true s)

dashed-take :
    (need : Bool) (n : ℕ) (s : Text) → dashed need s ≡ true → dashed need (take n s) ≡ true
unfolding dashed
dashed-take need zero s h = refl
dashed-take need (suc n) [] h = h
dashed-take need (suc n) (c ∷ s) h = ground (arith, dashed-take false n s, dashed-take true n s)

dashed_of_slug_re : (need : Bool) (s : Text) → slug_re need s ≡ true → dashed need s ≡ true
unfolding dashed slug_re
dashed_of_slug_re need [] h = refl
dashed_of_slug_re need (c ∷ s) h =
    ground (arith, dashed_of_slug_re false s, dashed_of_slug_re true s)

-- Empty, or matched by the expression.
abbrev IsTrimmed : Text → Type 0
IsTrimmed s = (s ≡ []) ⊎ (slug_re true s ≡ true)

trim_dashes-IsTrimmed : (s : Text) → dashed true s ≡ true → IsTrimmed (trim_dashes s)
unfolding trim_dashes
trim_dashes-IsTrimmed s h = rw (trim_left_of_dashed s h) (trim_right_of_dashed true s h)

length-trim_dashes : (s : Text) → dashed true s ≡ true → length (trim_dashes s) ≤ length s
unfolding trim_dashes
length-trim_dashes s h = rw (trim_left_of_dashed s h) (length-trim_right is_dash s)

dashed_of_IsTrimmed : (s : Text) → IsTrimmed s → dashed true s ≡ true
unfolding dashed
dashed_of_IsTrimmed s (inl e) = rw e
dashed_of_IsTrimmed s (inr h) = dashed_of_slug_re true s h

shorten-IsTrimmed :
    (s : Text) → IsTrimmed s → IsTrimmed (shorten s) × (length (shorten s) ≤ max_slug_len)
shorten-IsTrimmed s h = elim (Bool-cases (ltb max_slug_len (length s))) [
  | inl long ↦
      let d = dashed-take true max_slug_len s (dashed_of_IsTrimmed s h) in
      rw long (
        trim_dashes-IsTrimmed (take max_slug_len s) d,
        omega (arith, length-trim_dashes (take max_slug_len s) d, length-take max_slug_len s),
      )
  | inr short ↦ rw short (h, ground arith)
]

or_album_valid :
    (s : Text)
    → IsTrimmed s
    → length s ≤ max_slug_len
    → (slug_re true (or_album s) ≡ true) × (length (or_album s) ≤ max_slug_len)
unfolding slug_re
or_album_valid [] h k = (refl, omega arith)
or_album_valid (c ∷ s) h k = (ground arith, k)

pub slugify_bounds :
    (is_mark : ℕ → Bool) (runes : List ℕ)
    → (slug_re true (slugify is_mark runes) ≡ true)
      × (length (slugify is_mark runes) ≤ max_slug_len)
unfolding slugify
slugify_bounds is_mark runes =
    let first =
      trim_dashes-IsTrimmed (slug_loop is_mark true runes) (slug_loop-dashed is_mark true runes) in
    let (trimmed, short) = shorten-IsTrimmed (trim_dashes (slug_loop is_mark true runes)) first in
    or_album_valid (shorten (trim_dashes (slug_loop is_mark true runes))) trimmed short

slug_re-append :
    (need : Bool) (a b : Text)
    → slug_re need a ≡ true
    → slug_re true b ≡ true
    → slug_re need (a ++ (b'-' ∷ b)) ≡ true
unfolding slug_re
slug_re-append need [] b h k = ground arith
slug_re-append need (c ∷ a) b h k =
    ground (arith, slug_re-append false a b, slug_re-append true a b)

slug_re-word : (s : Text) → all is_word s ≡ true → slug_re false s ≡ true
unfolding slug_re
slug_re-word [] h = refl
slug_re-word (c ∷ s) h = ground (arith, slug_re-word s)

slug_re_of_word : (s : Text) → all is_word s ≡ true → 0 < length s → slug_re true s ≡ true
unfolding slug_re
slug_re_of_word [] h p = absurd (omega arith)
slug_re_of_word (c ∷ s) h p = ground (arith, slug_re-word s)

alphabet-word : (i : ℕ) → i < 36 → is_word (char_at slug_suffix_alphabet i) ≡ true
alphabet-word i h = all_below_sound 36 (λ j. is_word (char_at slug_suffix_alphabet j)) i table h
  where
    table : all_below 36 (λ j. is_word (char_at slug_suffix_alphabet j)) ≡ true
    table = refl

suffix_chars-word : (bytes : List ℕ) → all is_word (suffix_chars bytes) ≡ true
suffix_chars-word [] = refl
suffix_chars-word (b ∷ bytes) =
    ground (arith, alphabet-word (b % 36) (omega arith), suffix_chars-word bytes)

length-suffix_chars : (bytes : List ℕ) → length (suffix_chars bytes) ≡ length bytes
length-suffix_chars [] = refl
length-suffix_chars (b ∷ bytes) = ap suc (length-suffix_chars bytes)

pub slug_suffix_word :
    (random : List ℕ) (n : ℕ) (suffix rest : Text)
    → slug_suffix random n ≡ some (suffix, rest)
    → (all is_word suffix ≡ true) × (length suffix ≡ n)
unfolding slug_suffix
slug_suffix_word random n suffix rest e =
    let enough : ltb (length random) n ≡ false = ground arith in
    let here : suffix ≡ suffix_chars (take n random) = ground arith in
    rw here (
      suffix_chars-word (take n random),
      ground (arith, length-suffix_chars (take n random), length-take n random),
    )

-- Every slug that the server makes from a name, with or without a random suffix of four letters or
-- digits, passes the test by which its routes accept a slug.
pub slugify-valid_slug :
    (is_mark : ℕ → Bool) (runes random : List ℕ) (suffix rest : Text)
    → slug_suffix random 4 ≡ some (suffix, rest)
    → (valid_slug (slugify is_mark runes) ≡ true)
      × (valid_slug (slugify is_mark runes ++ (b'-' ∷ suffix)) ≡ true)
unfolding valid_slug
slugify-valid_slug is_mark runes random suffix rest e =
    let (matched, short) = slugify_bounds is_mark runes in
    let (word, four) = slug_suffix_word random 4 suffix rest e in
    let joined =
      slug_re-append true (slugify is_mark runes) suffix matched
        (slug_re_of_word suffix word (omega arith)) in
    (
      ground (arith, matched, short),
      ground (arith, joined, short, length-append (slugify is_mark runes) (b'-' ∷ suffix)),
    )
