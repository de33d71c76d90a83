-- ===== src/Media.antt =====
-- What kind of file an upload is, from its first bytes (Sniff of backend/internal/video/video.go,
-- IsJPEG of backend/internal/image/image.go). Decoding, probing and rendering are done by libvips,
-- ffprobe and ffmpeg, which stand behind `Tools`.
use smugbox.Common.{
  ℕ, Text, List, Option, Bool, String, any, ◌∷◌, if◌then◌else◌, ◌==◌, text_eq, [], ltb, ◌&&◌, codes,
  length, false, ◌||◌, none, some, take, not, drop,
}

-- VideoInfo.DurationMs is 0 for an image.
pub record Info : Type 0 where
  pub width : ℕ
  pub height : ℕ
  pub duration_ms : ℕ

-- ffprobe and ffmpeg read the file, rejected it (`ErrInvalid`), or could not be run.
pub data Probed : Type 0 where
  probed : Info → Probed
  invalid : Probed
  broken : Probed

-- The programs and libraries outside the repository, on the contents of files: image.Probe,
-- image.Resize with its long side, quality and blur, the probe and the poster frame of a video (none
-- where ffmpeg runs and rejects it), the hex digest of SHA-256, and the reading of a uuid.
pub record Tools : Type 0 where
  pub probe : Text → Option Info
  pub resize : Text → ℕ → ℕ → ℕ → Option Text
  pub probe_video : Text → Probed
  pub poster : Text → ℕ → Option Text
  pub sha256 : Text → Text
  pub parse_uuid : Text → Option Text
  pub json_strings : Text → Option (List Text)
  pub json_object : Text → Option Text

unfoldable pub is_jpeg : Text → Bool
is_jpeg (a ∷ b ∷ c ∷ rest) = a == 0xff && (b == 0xd8 && c == 0xff)
is_jpeg _ = false

abbrev pub one_of : List String → Text → Bool
one_of names s = any (λ n. text_eq (codes n) s) names

-- Brands of files that hold images or audio.
abbrev pub not_video : List String
not_video =
    "avif" ∷ "avis" ∷ "heic" ∷ "heix" ∷ "heim" ∷ "heis" ∷ "hevc" ∷ "hevx" ∷ "mif1" ∷ "msf1" ∷ "crx "
    ∷ "M4A " ∷ "M4B " ∷ "M4P " ∷ "F4A " ∷ "F4B " ∷ []

abbrev pub quick_time_atoms : List String
quick_time_atoms = "moov" ∷ "mdat" ∷ "wide" ∷ "free" ∷ "skip" ∷ "pnot" ∷ []

abbrev sniff_box : Text → Text → Option Text
sniff_box box brand =
    if text_eq box (codes "ftyp") && text_eq brand (codes "qt  ") || one_of quick_time_atoms box
    then some (codes "video/quicktime")
    else if text_eq box (codes "ftyp") && not (one_of not_video brand)
    then some (codes "video/mp4")
    else none

unfoldable pub sniff : Text → Option Text
sniff head =
    if ltb (length head) 12 then none else sniff_box (take 4 (drop 4 head)) (take 4 (drop 8 head))
