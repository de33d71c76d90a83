-- ===== src/Tests/Theme.antt =====
-- A theme in a single folder, with a font, a file of another kind and a file of macOS.
use smugbox.Theme.{Dir, end, plain, folder, Manifest, Theme, read}
use smugbox.Theme.Servable.{IsServable, read-IsServable}
use smugbox.Common.{Text, codes, ◌∷◌, [], Option, some, true, text_eq, refl}

abbrev noir : Manifest
noir = record { smugbox = 1; name = codes "Noir"; version = []; dark = true; gallery = [] }

abbrev decode_noir : Text → Option Manifest
decode_noir content = some noir

abbrev keep : Text → Text
keep s = s

abbrev inside : Dir
inside = plain (codes ".DS_Store") (codes "x") (
    folder (codes "fonts") (plain (codes "noir.woff2") (codes "font") end) (
      plain (codes "README.md") (codes "text")
        (plain (codes "theme.css") (codes "css") (plain (codes "theme.json") (codes "json") end))))

abbrev loaded : Theme
loaded = record {
  manifest = record noir { gallery = codes "rows" };
  files = (codes "fonts/noir.woff2", codes "font") ∷ (codes "theme.css", codes "css") ∷ [];
  skipped = codes "README.md" ∷ [];
}

read-IsServable_example : IsServable decode_noir keep loaded
unfolding read text_eq
read-IsServable_example =
    read-IsServable decode_noir keep (folder (codes "noir-main") inside end) loaded refl
