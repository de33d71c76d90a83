-- ===== src/Library/Ingest/Neutral.antt =====
-- No metadata field changes which photo a row is, or whether it is ready.
use smugbox.Library.Metadata.{
  Fields, Edit, edit_filename, edit_title, edit_caption, edit_taken_at, edit_keywords, edit_exif,
  set_keywords, set_exif, then_edit, parse_metadata, parse_keywords, sanitize_filename,
  max_taken_at_len,
}
use smugbox.Common.{
  trim_space, ◌≡◌, ◌∙◌, Option, Bool, List, Text, if◌then◌else◌, subst, some, refl, ltb, is_empty,
  none, true, length, [], false,
}
use smugbox.Db.{Photo}
use smugbox.Exec.{Result, ok, err}
use smugbox.Media.{Tools}

pub record IsSame (p q : Photo) : Type 0 where
  pub id : q.id ≡ p.id
  pub album : q.album_id ≡ p.album_id
  pub ready : q.variants_ready ≡ p.variants_ready

pub IsSame-trans : (p q r : Photo) → IsSame p q → IsSame q r → IsSame p r
IsSame-trans p q r a b = record {
  id = b.id ∙ a.id;
  album = b.album ∙ a.album;
  ready = b.ready ∙ a.ready;
}

pub IsSame-refl : (p : Photo) → IsSame p p
IsSame-refl p = record { id = refl; album = refl; ready = refl }

pub if-IsSame : (b : Bool) (p q r : Photo) → IsSame p q → IsSame p r → IsSame p (if b then q else r)
if-IsSame true p q r h k = h
if-IsSame false p q r h k = k

abbrev pub Neutral : Edit → Type 0
Neutral edit = (p : Photo) → IsSame p (edit p)

edit_filename-Neutral : (o : Option Text) → Neutral (edit_filename o)
unfolding edit_filename
edit_filename-Neutral none p = IsSame-refl p
edit_filename-Neutral (some v) p =
    if-IsSame (is_empty (sanitize_filename v)) p p (record p { filename = sanitize_filename v })
      (IsSame-refl p) (record { id = refl; album = refl; ready = refl })

edit_title-Neutral : (o : Option Text) → Neutral (edit_title o)
unfolding edit_title
edit_title-Neutral none p = IsSame-refl p
edit_title-Neutral (some v) p = record { id = refl; album = refl; ready = refl }

edit_caption-Neutral : (o : Option Text) → Neutral (edit_caption o)
unfolding edit_caption
edit_caption-Neutral none p = IsSame-refl p
edit_caption-Neutral (some v) p = record { id = refl; album = refl; ready = refl }

-- A parsed edit, if there is one, is neutral.
abbrev Sound : Result Edit → Type 0
Sound (ok edit) = Neutral edit
Sound (err e) = Unit {0}

if-Sound : (b : Bool) (r q : Result Edit) → Sound r → Sound q → Sound (if b then r else q)
if-Sound true r q h k = h
if-Sound false r q h k = k

edit_taken_at-Sound : (o : Option Text) → Sound (edit_taken_at o)
unfolding edit_taken_at
edit_taken_at-Sound none = IsSame-refl
edit_taken_at-Sound (some v) =
    if-Sound (ltb max_taken_at_len (length (trim_space v))) _
      (ok (λ p. record p { taken_at = trim_space v })) tt
      (λ p. record { id = refl; album = refl; ready = refl })

set_keywords-Sound : (r : Result (List Text)) → Sound (set_keywords r)
set_keywords-Sound (err e) = tt
set_keywords-Sound (ok kws) = λ p. record { id = refl; album = refl; ready = refl }

edit_keywords-Sound :
    (json : Text → Option (List Text)) (o : Option Text) → Sound (edit_keywords json o)
unfolding edit_keywords
edit_keywords-Sound json none = IsSame-refl
edit_keywords-Sound json (some v) = set_keywords-Sound (parse_keywords json v)

set_exif-Sound : (o : Option Text) → Sound (set_exif o)
set_exif-Sound none = tt
set_exif-Sound (some exif) = λ p. record { id = refl; album = refl; ready = refl }

edit_exif-Sound : (json : Text → Option Text) (o : Option Text) → Sound (edit_exif json o)
unfolding edit_exif
edit_exif-Sound json none = IsSame-refl
edit_exif-Sound json (some v) =
    if-Sound (is_empty (trim_space v)) (ok (λ p. record p { exif = [] })) _
      (λ p. record { id = refl; album = refl; ready = refl }) (set_exif-Sound (json (trim_space v)))

then_edit-Sound :
    (r : Result Edit) (f : Edit → Result Edit)
    → Sound r
    → ((edit : Edit) → Neutral edit → Sound (f edit))
    → Sound (then_edit r f)
then_edit-Sound (err e) f h k = tt
then_edit-Sound (ok edit) f h k = k edit h

parse_metadata-Sound : (tools : Tools) (fields : Fields) → Sound (parse_metadata tools fields)
unfolding parse_metadata
parse_metadata-Sound tools fields =
    then_edit-Sound (edit_taken_at (fields "taken_at")) _ (edit_taken_at-Sound (fields "taken_at"))
      λ taken_at a.
        then_edit-Sound (edit_keywords tools.json_strings (fields "keywords")) _
          (edit_keywords-Sound tools.json_strings (fields "keywords"))
          λ keywords b.
            then_edit-Sound (edit_exif tools.json_object (fields "exif")) _
              (edit_exif-Sound tools.json_object (fields "exif"))
              λ exif c p.
                let p₁ = edit_filename (fields "filename") p in
                let p₂ = edit_title (fields "title") p₁ in
                let p₃ = edit_caption (fields "caption") p₂ in
                let p₄ = taken_at p₃ in
                let p₅ = keywords p₄ in
                IsSame-trans p p₅ (exif p₅)
                  (IsSame-trans p p₄ p₅
                    (IsSame-trans p p₃ p₄
                      (IsSame-trans p p₂ p₃
                        (IsSame-trans p p₁ p₂ (edit_filename-Neutral (fields "filename") p)
                          (edit_title-Neutral (fields "title") p₁))
                        (edit_caption-Neutral (fields "caption") p₂))
                      (a p₃))
                    (b p₄))
                  (c p₅)

pub parse_metadata-Neutral :
    (tools : Tools) (fields : Fields) (edit : Edit)
    → parse_metadata tools fields ≡ ok edit
    → Neutral edit
parse_metadata-Neutral tools fields edit e = subst Sound e (parse_metadata-Sound tools fields)
