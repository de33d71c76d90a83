-- ===== src/Library/Renditions/Sizes.antt =====
-- The dimensions of the display variants.
use smugbox.Library.Renditions.{scaled, scale_down, variant_size, has_large}
use smugbox.Db.{Photo}
use smugbox.Storage.{Variant, original, large, medium, small, thumb, blur}
use native.Mathlib.Nat.{div-lt_iff_lt-mul, le-div_iff_mul-le, mul-le-mul_left, mul-le-mul_right}
use smugbox.Common.{
  ℕ, text_eq, ◌<◌, ◌≤◌, max, ◌+◌, ◌*◌, ◌≡◌, ◌/◌, arith, min, Bool-cases, leb, inl, inr, ap, ◌∙◌,
  refl,
}

below : (n d k : ℕ) → 0 < d → n < (k + 1) * d → n / d ≤ k
below n d k p h = omega (arith, (div-lt_iff_lt-mul {k = d} {x = n} {y = k + 1} p).1 h)

-- A side that is no longer than the longest is scaled to at most `long`.
scaled-le_long : (a long most : ℕ) → 0 < most → a ≤ most → scaled a long most ≤ long
scaled-le_long a long most p h =
    below (2 * a * long + most) (2 * most) long (omega (arith, p))
      (omega (arith, p, product a most long h))
  where
    product : (a b c : ℕ) → a ≤ b → a * c ≤ b * c
    product a b c h = mul-le-mul_right c h

scaled-le : (a long most : ℕ) → long < most → scaled a long most ≤ a
scaled-le a long most h =
    below (2 * a * long + most) (2 * most) a (omega (arith, h))
      (omega (arith, h, product long most a (omega (arith, h))))
  where
    product : (a b c : ℕ) → a ≤ b → c * a ≤ c * b
    product a b c h = mul-le-mul_left c h

-- The longest side becomes `long`.
scaled-most : (long most : ℕ) → 0 < most → scaled most long most ≡ long
scaled-most long most p = omega (
  arith,
  scaled-le_long most long most p (omega arith),
  (le-div_iff_mul-le {k = 2 * most} {x = long} {y = 2 * most * long + most} (omega (arith, p))).1
      (omega arith),
)

pair-fits :
    (a b long most : ℕ)
    → long < most
    → max a b ≡ most
    → (scaled a long most ≤ a)
      × (scaled b long most ≤ b)
      × (max (scaled a long most) (scaled b long most) ≡ long)
pair-fits a b long most h m =
    let p : 0 < most = omega (arith, h) in
    let sa = scaled-le_long a long most p (omega (arith, m)) in
    let sb = scaled-le_long b long most p (omega (arith, m)) in
    let longest =
      elim (Bool-cases (leb b a)) as (λ _. max (scaled a long most) (scaled b long most) ≡ long) [
        | inl wide ↦
            let e : a ≡ most = ground (arith, m, wide) in
            omega (arith, sa, sb, ap (λ x. scaled x long most) e ∙ scaled-most long most p)
        | inr tall ↦
            let e : b ≡ most = ground (arith, m, tall) in
            omega (arith, sa, sb, ap (λ x. scaled x long most) e ∙ scaled-most long most p)
      ] in
    (scaled-le a long most h, scaled-le b long most h, longest)

-- No side grows, and the longest becomes `long` where it was longer.
pub scale_down-fits :
    (long : ℕ) (p : Photo)
    → ((scale_down long p).0 ≤ p.width)
      × ((scale_down long p).1 ≤ p.height)
      × (max (scale_down long p).0 (scale_down long p).1 ≡ min long (max p.width p.height))
unfolding scale_down
scale_down-fits long p = elim (Bool-cases (leb (max p.width p.height) long)) [
  | inl fits ↦ rw fits (omega arith, omega arith, ground (arith, fits))
  | inr larger ↦ rw larger (
      let (w, h, m) =
        pair-fits p.width p.height long (max p.width p.height) (ground (arith, larger)) refl in
      (w, h, m ∙ ground (arith, larger)))
]

-- The longest side that a variant may have.
abbrev pub bound : Photo → Variant → ℕ
bound p original = max p.width p.height
bound p large = 2560
bound p medium = 1600
bound p small = 800
bound p thumb = 400
bound p blur = 40

-- No side of a variant is longer than the photo's, and its longest side is the variant's bound or,
-- where the photo is smaller, the photo's own.
pub variant_size-fits :
    (p : Photo) (v : Variant)
    → ((variant_size p v).0 ≤ p.width)
      × ((variant_size p v).1 ≤ p.height)
      × (max (variant_size p v).0 (variant_size p v).1 ≡ min (bound p v) (max p.width p.height))
unfolding variant_size text_eq has_large
variant_size-fits p original = (omega arith, omega arith, omega arith)
variant_size-fits p large = elim (Bool-cases (has_large p)) [
  | inl scaled_down ↦ rw scaled_down (scale_down-fits 2560 p)
  | inr as_is ↦ rw as_is (omega arith, omega arith, ground (arith, as_is))
]
variant_size-fits p medium = scale_down-fits 1600 p
variant_size-fits p small = scale_down-fits 800 p
variant_size-fits p thumb = scale_down-fits 400 p
variant_size-fits p blur = scale_down-fits 40 p
