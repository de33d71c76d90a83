-- ===== src/Tests/Visitors.antt =====
-- The pages and files that visitors are sent, on an album that is public.
use smugbox.Api.Visitor.{served_file, AlbumDetail, get_photo_variant, album_cover}
use smugbox.Api.Visitor.Visible.{IsVisible, get_photo_variant-IsVisible}
use smugbox.Api.Visitor.Covers.{IsCover, album_cover-IsCover}
use smugbox.Api.Disposition.{content_disposition}
use smugbox.Api.Disposition.Inert.{
  IsInert, decode_ext, saved_name, content_disposition-decode_ext, IsValueChar,
}
use smugbox.Api.Download.{download_album, ZipEntry, candidate}
use smugbox.Api.Download.Names.{IsLower, AllDigits}
use smugbox.Api.Download.Zipped.{NamesDiffer, download_album-NamesDiffer}
use smugbox.Db.{Album, Photo, Tables}
use smugbox.Db.Listed.{summarize, list_ready_photos, get_album_summary_by_slug}
use smugbox.Db.Consistent.{IsConsistent}
use smugbox.Storage.{thumb, file_path}
use smugbox.World.{World, query, io}
use smugbox.Tests.Data.{photo, tools, tables, tables-IsConsistent, album, codec, world}
use smugbox.Common.{
  codes, none, [], ◌∷◌, true, false, refl, Text, text_eq, ◌≡◌, ◌++◌, All, arith, sort_by, map, ap,
  if◌then◌else◌, leb, ◌&&◌, ◌+◌, List,
}
use smugbox.Db.Albums.{get_album_by_slug}
use smugbox.Api.Access.{album_access}
use smugbox.Db.Photos.{get_photo}
use smugbox.Storage.Disk.{read_file}

abbrev open_album : Album
open_album = record album { password_hash = [] }

abbrev shown_photo : Photo
shown_photo = record photo { variants_ready = true }

abbrev gallery : Tables
gallery = record tables { albums = open_album ∷ []; photos = shown_photo ∷ [] }

abbrev with_thumb : World
with_thumb = record world {
  tables = gallery;
  disk =
      record {
        path = record { album_id = codes "a1"; photo_id = codes "p1"; name = codes "thumb.jpg" };
        content = codes "jpeg";
      }
      ∷ [];
}

gallery-IsConsistent : IsConsistent gallery
unfolding text_eq
gallery-IsConsistent = record {
  folders_apart = tables-IsConsistent.folders_apart;
  albums_apart = (tt, tt);
  photos_apart = (tt, tt);
  tree = tables-IsConsistent.tree;
  album_folders = (refl, tt);
  photo_albums = (refl, tt);
}

get_photo_variant-IsVisible_example :
    IsVisible tools gallery with_thumb.disk codec 5 none
      (codes "hike")
      (codes "p1")
      (served_file shown_photo thumb false (codes "public, max-age=86400") (codes "jpeg"))
unfolding get_photo_variant text_eq query io get_album_by_slug album_access get_photo file_path
    read_file
get_photo_variant-IsVisible_example =
    get_photo_variant-IsVisible tools codec 5 none (codes "hike") (codes "p1") (codes "thumb") false
      with_thumb
      (served_file shown_photo thumb false (codes "public, max-age=86400") (codes "jpeg")) refl

album_cover-IsCover_example :
    IsCover tools codec 5 none gallery with_thumb.disk
      (codes "hike")
      (served_file shown_photo thumb false (codes "public, max-age=300") (codes "jpeg"))
unfolding album_cover query io get_album_summary_by_slug text_eq sort_by get_photo file_path
    read_file
album_cover-IsCover_example =
    album_cover-IsCover tools codec 5 none (codes "hike") with_thumb
      (served_file shown_photo thumb false (codes "public, max-age=300") (codes "jpeg"))
      gallery-IsConsistent refl

abbrev page : AlbumDetail
page = record {
  summary = summarize gallery open_album;
  breadcrumb =
      record { slug = codes "trips"; name = codes "Trips" }
      ∷ record { slug = codes "alps"; name = codes "Alps" }
      ∷ [];
  photos = shown_photo ∷ [];
}

abbrev quoted : Text
quoted = b'"' ∷ 10 ∷ 0xc3 ∷ 0xa5 ∷ []

content_disposition-decode_ext_example :
    (plain : Text) × (coded : Text) × (content_disposition quoted
      ≡ codes "attachment; filename="
        ++ (b'"' ∷ plain ++ (b'"' ∷ codes "; filename*=UTF-8''" ++ coded)))
    × All IsInert plain
    × All IsValueChar coded
    × (decode_ext coded ≡ saved_name quoted)
content_disposition-decode_ext_example = content_disposition-decode_ext quoted (omega arith)

abbrev zipped : List ZipEntry
zipped =
    record { name = codes "ONE.jpg"; content = codes "second" }
    ∷ record { name = codes "one-2.jpg"; content = codes "first" }
    ∷ []

abbrev lower_ascii : Text → Text
lower_ascii s = map (λ c. if leb b'A' c && leb c b'Z' then c + 32 else c) s

lower_ascii-IsLower : IsLower lower_ascii
lower_ascii-IsLower = record { dash = dash; number = number }
  where
    dash : (s t : Text) → lower_ascii (s ++ (b'-' ∷ t)) ≡ lower_ascii s ++ (b'-' ∷ lower_ascii t)
    dash [] t = refl
    dash (c ∷ s) t = ap (λ r. (if leb b'A' c && leb c b'Z' then c + 32 else c) ∷ r) (dash s t)

    number : (ds t : Text) → AllDigits ds → lower_ascii (ds ++ t) ≡ ds ++ lower_ascii t
    number [] t h = refl
    number (c ∷ ds) t (h, hs) = ground (arith, h, number ds t hs)

abbrev twice : World
twice = record world {
  tables = record gallery {
    photos =
        shown_photo
        ∷ record shown_photo {
          id = codes "p2";
          lr_photo_uuid = codes "lr2";
          filename = codes "ONE.jpg";
        }
        ∷ [];
  };
  disk =
      record {
        path = record { album_id = codes "a1"; photo_id = codes "p1"; name = codes "original.jpg" };
        content = codes "first";
      }
      ∷ record {
        path = record { album_id = codes "a1"; photo_id = codes "p2"; name = codes "original.jpg" };
        content = codes "second";
      }
      ∷ [];
}

download_album-NamesDiffer_example : NamesDiffer lower_ascii zipped
unfolding download_album text_eq query io get_album_by_slug album_access read_file sort_by file_path
    list_ready_photos candidate
download_album-NamesDiffer_example =
    download_album-NamesDiffer lower_ascii lower_ascii-IsLower tools codec 5 none 0 (codes "hike")
      twice zipped refl
