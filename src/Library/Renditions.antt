-- ===== src/Library/Renditions.antt =====
-- The display variants (backend/internal/library/variants.go).
pub mod Sizes
use smugbox.Common.{
  ℕ, max, List, ◌*◌, Bool, if◌then◌else◌, ◌+◌, ◌∷◌, starts_with, ◌||◌, true, ◌&&◌, not, text_eq,
  ◌/◌, leb, codes, ltb, false, [],
}
use smugbox.Storage.{Variant, thumb, large, medium, original, variant_name, small, blur}
use smugbox.Db.{Photo}

-- The blur is 0 for none, and else its sigma in tenths.
pub record Rendition : Type 0 where
  pub variant : Variant
  pub long : ℕ
  pub quality : ℕ
  pub blur_sigma : ℕ

abbrev pub renditions : List Rendition
renditions =
    record { variant = thumb; long = 400; quality = 80; blur_sigma = 0 }
    ∷ record { variant = large; long = 2560; quality = 85; blur_sigma = 0 }
    ∷ record { variant = medium; long = 1600; quality = 85; blur_sigma = 0 }
    ∷ record { variant = small; long = 800; quality = 80; blur_sigma = 0 }
    ∷ record { variant = blur; long = 40; quality = 40; blur_sigma = 20 }
    ∷ []

abbrev pub large_long : ℕ
large_long = 2560

abbrev pub is_video : Photo → Bool
is_video p = starts_with (codes "video/") p.mime_type

-- A photo whose original is no bigger has no large variant; a video always has one.
unfoldable pub has_large : Photo → Bool
has_large p = is_video p || ltb large_long (max p.width p.height)

abbrev pub is_large : Variant → Bool
is_large large = true
is_large v = false

-- The variant whose file serves `v`.
unfoldable pub served_variant : Photo → Variant → Variant
unfolding has_large
served_variant p v = if is_large v && not (has_large p) then original else v

-- The renditions that a photo has.
abbrev pub needed : Photo → Rendition → Bool
needed p r = not (is_large r.variant) || has_large p

abbrev variant_eq : Variant → Variant → Bool
variant_eq v w = text_eq (variant_name v) (variant_name w)

-- math.Round(a * long / most) with the exact quotient, halves up. The source multiplies by a float64
-- quotient, which may come out a pixel lower where the exact value is a half.
abbrev pub scaled : ℕ → ℕ → ℕ → ℕ
scaled a long most = (2 * a * long + most) / (2 * most)

unfoldable pub scale_down : ℕ → Photo → ℕ × ℕ
scale_down long p =
    let most = max p.width p.height in
    if leb most long
    then (p.width, p.height)
    else (scaled p.width long most, scaled p.height long most)

abbrev pub size_in : List Rendition → Photo → Variant → ℕ × ℕ
size_in [] p v = (p.width, p.height)
size_in (r ∷ rs) p v =
    if variant_eq r.variant v && (not (is_large v) || has_large p)
    then scale_down r.long p
    else size_in rs p v

unfoldable pub variant_size : Photo → Variant → ℕ × ℕ
unfolding has_large scale_down
variant_size p v = size_in renditions p v
