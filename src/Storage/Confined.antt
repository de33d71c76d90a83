-- ===== src/Storage/Confined.antt =====
-- The paths of photo files stay below the store, one directory per photo and one file per variant.
use smugbox.Storage.{
  Variant, original, large, medium, small, thumb, blur, original_ext, filename, FilePath, valid_id,
  file_path, photo_dir, parse_variant, variant_name, variants,
}
use smugbox.Exec.{ok}
use smugbox.Common.{
  Text, List, any, codes, Option, ◌≡◌, text_eq, ◌∷◌, some, true, [], ◌↔◌, arith, Bool-cases, sym,
  refl, none, false, text_eq_iff, inl, ap, find?-sound, inr, ◌⊎◌, ◌++◌,
}

-- The names that a file in a photo's directory can have.
abbrev pub file_names : List Text
file_names =
    codes "original.jpg"
    ∷ codes "original.mp4"
    ∷ codes "original.mov"
    ∷ codes "large.jpg"
    ∷ codes "medium.jpg"
    ∷ codes "small.jpg"
    ∷ codes "thumb.jpg"
    ∷ codes "blur.jpg"
    ∷ []

original_ext-cases :
    (mime : Text)
    → (original_ext mime ≡ none)
      ⊎ ((original_ext mime ≡ some (codes ".mp4")) ⊎ (original_ext mime ≡ some (codes ".mov")))
original_ext-cases mime = elim (Bool-cases (text_eq mime (codes "video/mp4"))) [
  | inl mp4 ↦ inr (inl (rw mp4 refl))
  | inr other ↦ elim (Bool-cases (text_eq mime (codes "video/quicktime"))) [
    | inl mov ↦ inr (inr (rw (other, mov) refl))
    | inr image ↦ inl (rw (other, image) refl)
  ]
]

any-stem :
    (o : Option Text)
    → (o ≡ none) ⊎ ((o ≡ some (codes ".mp4")) ⊎ (o ≡ some (codes ".mov")))
    → any
        (text_eq (elim o [ none ↦ codes "original.jpg" | some ext ↦ codes "original" ++ ext ]))
        file_names
      ≡ true
unfolding text_eq
any-stem o (inl e) = rw e refl
any-stem o (inr (inl e)) = rw e refl
any-stem o (inr (inr e)) = rw e refl

filename-any : (v : Variant) (mime : Text) → any (text_eq (filename v mime)) file_names ≡ true
unfolding filename text_eq
filename-any original mime = any-stem (original_ext mime) (original_ext-cases mime)
filename-any v mime = refl

-- A path has the ids that were asked for, which the uuid package reads and prints back, and a name of
-- the list.
pub record IsConfined (parse_uuid : Text → Option Text) (album_id photo_id : Text) (p : FilePath)
    : Type 0 where
  pub album : p.album_id ≡ album_id
  pub photo : p.photo_id ≡ photo_id
  pub album_read : parse_uuid album_id ≡ some album_id
  pub photo_read : parse_uuid photo_id ≡ some photo_id
  pub named : any (text_eq p.name) file_names ≡ true

valid_id-read :
    (parse_uuid : Text → Option Text) (id : Text)
    → valid_id parse_uuid id ≡ true
    → parse_uuid id ≡ some id
valid_id-read parse_uuid id h = printed (parse_uuid id) h
  where
    printed :
        (o : Option Text) → (elim o [ none ↦ false | some p ↦ text_eq p id ]) ≡ true → o ≡ some id
    printed none h = absurd (cc)
    printed (some p) h = ap some ((text_eq_iff p id).0 h)

-- A path that is handed out has the two ids that were asked for, which the uuid package reads and
-- prints back unchanged, and one of the eight file names, whatever the media type says.
pub file_path-IsConfined :
    (parse_uuid : Text → Option Text) (album_id photo_id : Text) (v : Variant) (mime : Text)
    (p : FilePath)
    → file_path parse_uuid album_id photo_id v mime ≡ ok p
    → IsConfined parse_uuid album_id photo_id p
unfolding file_path photo_dir
file_path-IsConfined parse_uuid album_id photo_id v mime p e =
    let album : valid_id parse_uuid album_id ≡ true = ground (arith, e) in
    let photo : valid_id parse_uuid photo_id ≡ true = ground (arith, e) in
    let path : p ≡ record { album_id = album_id; photo_id = photo_id; name = filename v mime } =
      ground (arith, e) in
    rw path (record {
      album = refl;
      photo = refl;
      album_read = valid_id-read parse_uuid album_id album;
      photo_read = valid_id-read parse_uuid photo_id photo;
      named = filename-any v mime;
    })

-- Files of two variants of a photo have the same name only if the variants are the same, whatever
-- media types the names were built with.
pub filename-injective : (v w : Variant) (m n : Text) → filename v m ≡ filename w n → v ≡ w
unfolding filename
filename-injective original original m n e = refl
filename-injective original w m n e = absurd (ground arith)
filename-injective v original m n e = absurd (ground arith)
filename-injective v w m n e = ground arith

-- A variant is read back from its name, and no other text names one.
pub parse_variant_iff : (s : Text) (v : Variant) → (parse_variant s ≡ some v) ↔ (s ≡ variant_name v)
unfolding parse_variant text_eq
parse_variant_iff s v = (
  λ e. sym (
      (text_eq_iff (variant_name v) s).0
        (find?-sound (λ w. text_eq (variant_name w) s) variants v e)),
  λ e. rw e (own v),
)
  where
    own : (v : Variant) → parse_variant (variant_name v) ≡ some v
    own original = refl
    own large = refl
    own medium = refl
    own small = refl
    own thumb = refl
    own blur = refl
