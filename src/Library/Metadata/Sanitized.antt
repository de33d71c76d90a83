-- ===== src/Library/Metadata/Sanitized.antt =====
-- What SanitizeFilename lets through.
use smugbox.Library.Metadata.{
  is_unsafe, is_control, clean_rune, clean_runes, is_dots, to_slash, max_filename_len,
  sanitize_filename,
}
use smugbox.Common.{
  All, All-append, All-trim_space, Bool-cases, List, Text, [], arith, encode_rune, false,
  if◌then◌else◌, inl, inr, length, length-take, ltb, ltb→lt, map, path_base, refl, runes, suc, take,
  text_eq, trim_space, true, zero, ℕ, ◌∷◌, ◌≡◌, ◌≤◌, ◌≢◌, codes, sym, ap, ◌∙◌,
}

-- A byte that may stand in a header's quoted name and in a zip entry's last element, written out: no
-- slash or backslash, no double quote, none of the characters a file system refuses, and no control
-- character of ASCII.
pub record IsSafe (c : ℕ) : Type 0 where
  pub not_slash : c ≢ 47
  pub not_backslash : c ≢ 92
  pub not_quote : c ≢ 34
  pub not_colon : c ≢ 58
  pub not_star : c ≢ 42
  pub not_question : c ≢ 63
  pub not_less : c ≢ 60
  pub not_greater : c ≢ 62
  pub not_bar : c ≢ 124
  pub printable : 32 ≤ c
  pub not_delete : c ≢ 127

IsSafe-high : (c : ℕ) → 0x80 ≤ c → IsSafe c
IsSafe-high c h = record {
  not_slash = λ e. omega (arith, e, h);
  not_backslash = λ e. omega (arith, e, h);
  not_quote = λ e. omega (arith, e, h);
  not_colon = λ e. omega (arith, e, h);
  not_star = λ e. omega (arith, e, h);
  not_question = λ e. omega (arith, e, h);
  not_less = λ e. omega (arith, e, h);
  not_greater = λ e. omega (arith, e, h);
  not_bar = λ e. omega (arith, e, h);
  printable = omega (arith, h);
  not_delete = λ e. omega (arith, e, h);
}

IsSafe-kept : (r : ℕ) → is_unsafe r ≡ false → is_control r ≡ false → IsSafe r
IsSafe-kept r u k = record {
  not_slash = λ e. ground (arith, u, e);
  not_backslash = λ e. ground (arith, u, e);
  not_quote = λ e. ground (arith, u, e);
  not_colon = λ e. ground (arith, u, e);
  not_star = λ e. ground (arith, u, e);
  not_question = λ e. ground (arith, u, e);
  not_less = λ e. ground (arith, u, e);
  not_greater = λ e. ground (arith, u, e);
  not_bar = λ e. ground (arith, u, e);
  printable = ground (arith, k);
  not_delete = λ e. ground (arith, k, e);
}

underscore-IsSafe : IsSafe b'_'
underscore-IsSafe = record {
  not_slash = λ e. omega (arith, e);
  not_backslash = λ e. omega (arith, e);
  not_quote = λ e. omega (arith, e);
  not_colon = λ e. omega (arith, e);
  not_star = λ e. omega (arith, e);
  not_question = λ e. omega (arith, e);
  not_less = λ e. omega (arith, e);
  not_greater = λ e. omega (arith, e);
  not_bar = λ e. omega (arith, e);
  printable = omega arith;
  not_delete = λ e. omega (arith, e);
}

encode_rune-IsSafe :
    (r : ℕ) → is_unsafe r ≡ false → is_control r ≡ false → All IsSafe (encode_rune r)
unfolding encode_rune
encode_rune-IsSafe r u k = elim (Bool-cases (ltb r 0x80)) [
  | inl ascii ↦ rw ascii (IsSafe-kept r u k, tt)
  | inr wide ↦ elim (Bool-cases (ltb r 0x800)) [
    | inl two ↦ rw (wide, two) (IsSafe-high _ (omega arith), (IsSafe-high _ (omega arith), tt))
    | inr wider ↦ elim (Bool-cases (ltb r 0x10000)) [
      | inl three ↦
          rw (wide, wider, three)
            (
              IsSafe-high _ (omega arith),
              (IsSafe-high _ (omega arith), (IsSafe-high _ (omega arith), tt)),
            )
      | inr four ↦
          rw (wide, wider, four)
            (
              IsSafe-high _ (omega arith),
              (
                IsSafe-high _ (omega arith),
                (IsSafe-high _ (omega arith), (IsSafe-high _ (omega arith), tt)),
              ),
            )
    ]
  ]
]

clean_rune-IsSafe : (r : ℕ) → All IsSafe (clean_rune r)
unfolding clean_rune
clean_rune-IsSafe r = elim (Bool-cases (is_unsafe r)) [
  | inl unsafe ↦ rw unsafe (underscore-IsSafe, tt)
  | inr harmless ↦ elim (Bool-cases (is_control r)) [
    | inl control ↦ rw (harmless, control) tt
    | inr kept ↦ rw (harmless, kept) (encode_rune-IsSafe r harmless kept)
  ]
]

clean_runes-IsSafe : (rs : List ℕ) → All IsSafe (clean_runes rs)
unfolding clean_runes
clean_runes-IsSafe [] = tt
clean_runes-IsSafe (r ∷ rs) =
    All-append IsSafe (clean_rune r) (clean_runes rs) (clean_rune-IsSafe r) (clean_runes-IsSafe rs)

All-take : (n : ℕ) (s : Text) → All IsSafe s → All IsSafe (take n s)
All-take zero s h = tt
All-take (suc n) [] h = tt
All-take (suc n) (c ∷ s) (q, h) = (q, All-take n s h)

is_dots-short : (s : Text) → 3 ≤ length s → is_dots s ≡ false
unfolding text_eq
is_dots-short [] h = absurd (omega arith)
is_dots-short (a ∷ []) h = absurd (omega arith)
is_dots-short (a ∷ b ∷ []) h = absurd (omega arith)
is_dots-short (a ∷ b ∷ c ∷ s) h = ground arith

no_dots : (s : Text) → is_dots s ≡ false → (s ≢ codes ".") × (s ≢ codes "..")
unfolding text_eq
no_dots s h = (
  (λ e. let bad : true ≡ false = sym (ap is_dots e) ∙ h in absurd (cc)),
  (λ e. let bad : true ≡ false = sym (ap is_dots e) ∙ h in absurd (cc)),
)

-- A file name that is let through has at most 255 bytes, is neither "." nor "..", and no byte of it is
-- one of / \ " : * ? < > | or a control character of ASCII, all of them written out in IsSafe.
pub sanitize_filename-IsSafe :
    (name : Text)
    → All IsSafe (sanitize_filename name)
      × (length (sanitize_filename name) ≤ 255)
      × (sanitize_filename name ≢ codes ".")
      × (sanitize_filename name ≢ codes "..")
unfolding sanitize_filename text_eq
sanitize_filename-IsSafe name =
    let (safe, short, dots) =
      shortened (trim_space (clean_runes (runes (path_base (map to_slash name))))) (
        All-trim_space IsSafe (clean_runes (runes (path_base (map to_slash name))))
          (clean_runes-IsSafe (runes (path_base (map to_slash name))))) in
    let (one, two) = no_dots (sanitize_filename name) dots in (safe, short, one, two)
  where
    cut : Text → Text
    cut out =
        if is_dots out
        then []
        else if ltb max_filename_len (length out)
        then take max_filename_len out
        else out

    shortened :
        (out : Text)
        → All IsSafe out
        → All IsSafe (cut out) × (length (cut out) ≤ max_filename_len) × (is_dots (cut out) ≡ false)
    shortened out h = elim (Bool-cases (is_dots out)) [
      | inl dots ↦ rw dots (tt, omega arith, refl)
      | inr fine ↦ elim (Bool-cases (ltb max_filename_len (length out))) [
        | inl long ↦
            rw (fine, long)
              (
                All-take max_filename_len out h,
                omega (arith, length-take max_filename_len out),
                is_dots-short (take max_filename_len out) (
                    omega (
                      arith,
                      length-take max_filename_len out,
                      ltb→lt max_filename_len (length out) long,
                    )),
              )
        | inr short ↦ rw (fine, short) (h, ground (arith, short), fine)
      ]
    ]
