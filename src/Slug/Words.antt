-- ===== src/Slug/Words.antt =====
-- The expression of valid slugs, read as a grammar: words of letters and digits joined by dashes.
use smugbox.Slug.{slug_re, is_word, valid_slug, max_slug_len}
use smugbox.Common.{
  Text, ℕ, all, true, ◌≡◌, ◌<◌, false, append-nil, ◌∷◌, ◌↔◌, length, ◌++◌, [], arith, ap,
  Bool-cases, refl, ◌≤◌, inl, inr, ◌+◌,
}

-- Words that are not empty, joined by single dashes.
pub data IsSlug : Text → Type 0 where
  word : {w : Text} → all is_word w ≡ true → 0 < length w → IsSlug w
  join :
      (w s : Text) {t : Text}
      → all is_word w ≡ true
      → 0 < length w
      → IsSlug s
      → t ≡ w ++ (b'-' ∷ s)
      → IsSlug t

slug_re_of_word :
    (w s : Text) → all is_word w ≡ true → slug_re false s ≡ true → slug_re false (w ++ s) ≡ true
unfolding slug_re
slug_re_of_word [] s h k = k
slug_re_of_word (c ∷ w) s h k = ground (arith, slug_re_of_word w s)

slug_re_of_words :
    (w s : Text)
    → all is_word w ≡ true
    → 0 < length w
    → slug_re false s ≡ true
    → slug_re true (w ++ s) ≡ true
unfolding slug_re
slug_re_of_words [] s h p k = absurd (omega arith)
slug_re_of_words (c ∷ w) s h p k = ground (arith, slug_re_of_word w s)

slug_re_of_IsSlug : {t : Text} → IsSlug t → slug_re true t ≡ true
unfolding slug_re
slug_re_of_IsSlug (word {w} h p) = rw (← append-nil w) (slug_re_of_words w [] h p refl)
slug_re_of_IsSlug (join w s h p rest e) =
    rw e (slug_re_of_words w (b'-' ∷ s) h p (ground (arith, slug_re_of_IsSlug rest)))

-- One more letter or digit in front of a slug.
IsSlug-cons : {c : ℕ} {s : Text} → is_word c ≡ true → IsSlug s → IsSlug (c ∷ s)
IsSlug-cons p (word h q) = word (ground arith) (omega arith)
IsSlug-cons {c} p (join w s h q rest e) =
    join (c ∷ w) s (ground arith) (omega arith) rest (ap (λ t. c ∷ t) e)

IsSlug-first : (c : ℕ) (s : Text) → is_word c ≡ true → slug_re false s ≡ true → IsSlug (c ∷ s)
unfolding slug_re
IsSlug-first c [] p h = word (ground arith) (omega arith)
IsSlug-first c (d ∷ []) p h = IsSlug-cons p (word (ground arith) (omega arith))
IsSlug-first c (d ∷ e ∷ s) p h = elim (Bool-cases (is_word d)) [
  | inl letter ↦ IsSlug-cons p (IsSlug-first d (e ∷ s) letter (ground arith))
  | inr dash ↦
      join (c ∷ []) (e ∷ s) (ground arith) (omega arith)
        (IsSlug-first e s (ground arith) (ground arith)) (ground arith)
]

IsSlug_of_slug_re : (t : Text) → slug_re true t ≡ true → IsSlug t
unfolding slug_re
IsSlug_of_slug_re [] h = absurd (cc)
IsSlug_of_slug_re (c ∷ s) h = IsSlug-first c s (ground arith) (ground arith)

-- The test accepts exactly the non-empty words of letters and digits joined by single dashes, up to
-- the length of a slug with its suffix.
pub valid_slug_iff : (t : Text) → (valid_slug t ≡ true) ↔ (IsSlug t × (length t ≤ max_slug_len + 5))
unfolding valid_slug
valid_slug_iff t = (
  λ h. (IsSlug_of_slug_re t (ground arith), ground arith),
  λ h. ground (arith, slug_re_of_IsSlug h.0, h.1),
)
