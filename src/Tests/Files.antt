-- ===== src/Tests/Files.antt =====
-- The photo files and gc.
use smugbox.Storage.{medium, filename, file_path, photo_dir}
use smugbox.Storage.Confined.{IsConfined, file_path-IsConfined}
use smugbox.Storage.Listing.{AlbumEntry, gc, is_named}
use smugbox.Storage.Listing.Spared.{stands, gc-stands}
use smugbox.Storage.Listing.Targets.{IsHome}
use smugbox.Db.{PhotoRef}
use smugbox.Library.Renditions.{variant_size}
use smugbox.Library.Renditions.Sizes.{variant_size-fits}
use smugbox.Library.Metadata.{sanitize_filename}
use smugbox.Library.Metadata.Sanitized.{IsSafe, sanitize_filename-IsSafe}
use smugbox.Tests.Data.{photo}
use smugbox.Common.{
  text_eq, ◌≡◌, codes, ◌≤◌, ◌∷◌, some, max, [], false, refl, inl, All, length, ◌≢◌, List, true,
  none,
}

file_path-IsConfined_example :
    IsConfined
      (λ t. some t)
      (codes "a1")
      (codes "p1")
      (record { album_id = codes "a1"; photo_id = codes "p1"; name = codes "medium.jpg" })
unfolding file_path photo_dir filename text_eq
file_path-IsConfined_example =
    file_path-IsConfined (λ t. some t) (codes "a1") (codes "p1") medium (codes "image/jpeg")
      (record { album_id = codes "a1"; photo_id = codes "p1"; name = codes "medium.jpg" }) refl

variant_size-fits_example :
    ((variant_size photo medium).0 ≤ 3000)
    × ((variant_size photo medium).1 ≤ 2000)
    × (max (variant_size photo medium).0 (variant_size photo medium).1 ≡ 1600)
variant_size-fits_example = variant_size-fits photo medium

-- An album with a photo that has a row, an old directory without one, and a stray file.
abbrev disk : List AlbumEntry
disk =
    record {
      entry = record { name = codes "a1"; is_dir = true; mod_time = some 10 };
      inside = some (
          record { name = codes "p1"; is_dir = true; mod_time = some 10 }
          ∷ record { name = codes "p7"; is_dir = true; mod_time = some 10 }
          ∷ []);
    }
    ∷ record {
      entry = record { name = codes "x"; is_dir = false; mod_time = some 10 };
      inside = none;
    }
    ∷ []

abbrev refs : List PhotoRef
refs = record { album_id = codes "a1"; id = codes "p1" } ∷ []

disk-IsHome :
    All
      (λ e. is_named (codes "a1") e.entry ≡ true → IsHome (codes "a1") (codes "p1") refs 9999 e)
      disk
unfolding text_eq
disk-IsHome = (
  λ e. record {
    folder = refl;
    inside = (refl, (λ e. record { folder = refl; needed = inl refl }, (λ e. absurd (cc), tt)));
  },
  (λ e. absurd (cc), tt),
)

gc-stands_example :
    stands (codes "a1") (codes "p1") (gc (λ t. true) false refs [] 9999 (false ∷ []) disk disk)
    ≡ true
unfolding text_eq
gc-stands_example =
    gc-stands (λ t. true) false refs [] 9999 (false ∷ []) disk disk (codes "a1") (codes "p1") refl
      refl disk-IsHome refl

sanitize_filename-IsSafe_example :
    All IsSafe (sanitize_filename (codes "C:/x/a<b>.jpg"))
    × (length (sanitize_filename (codes "C:/x/a<b>.jpg")) ≤ 255)
    × (sanitize_filename (codes "C:/x/a<b>.jpg") ≢ codes ".")
    × (sanitize_filename (codes "C:/x/a<b>.jpg") ≢ codes "..")
sanitize_filename-IsSafe_example = sanitize_filename-IsSafe (codes "C:/x/a<b>.jpg")
