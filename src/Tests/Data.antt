-- ===== src/Tests/Data.antt =====
-- The data of the tests: two folders, an album in the inner one, and a photo in the album.
use smugbox.Db.{Folder, Album, Photo, Tables}
use smugbox.Db.Consistent.{IsConsistent, FolderApart}
use smugbox.Db.Tree.{top, under}
use smugbox.Media.{Tools, invalid}
use smugbox.World.{World}
use smugbox.Auth.Session.{Codec, Session, Grant}
use smugbox.Api.Albums.{Passwords}
use smugbox.Library.Ingest.{Upload}
use smugbox.Common.{
  zero, codes, ◌∷◌, [], arith, text_eq, some, List, Text, true, false, none, map, ◌≡◌, Option, All,
  suc, refl, ◌++◌, append-nil, ◌-◌, ◌≢◌, ◌+◌, ap,
}

abbrev pub outer : Folder
outer = record {
  id = codes "f1";
  parent_id = [];
  slug = codes "trips";
  name = codes "Trips";
  idempotency_key = [];
  created_at = 1;
  updated_at = 1;
}

abbrev pub inner : Folder
inner = record {
  id = codes "f2";
  parent_id = codes "f1";
  slug = codes "alps";
  name = codes "Alps";
  idempotency_key = codes "k2";
  created_at = 2;
  updated_at = 2;
}

abbrev pub album : Album
album = record {
  id = codes "a1";
  folder_id = codes "f2";
  slug = codes "hike";
  name = codes "Hike";
  description = [];
  password_hash = codes "#old";
  password_version = 1;
  is_listed = true;
  cover_photo_id = [];
  idempotency_key = [];
  created_at = 3;
  updated_at = 3;
}

abbrev pub photo : Photo
photo = record {
  id = codes "p1";
  album_id = codes "a1";
  lr_photo_uuid = codes "lr1";
  filename = codes "one.jpg";
  mime_type = codes "image/jpeg";
  size_bytes = 9;
  width = 3000;
  height = 2000;
  title = [];
  caption = [];
  keywords = [];
  taken_at = [];
  exif = [];
  content_hash = codes "h";
  duration_ms = 0;
  sort_order = 0;
  variants_ready = false;
  created_at = 4;
  updated_at = 4;
}

abbrev pub tables : Tables
tables = record {
  folders = outer ∷ inner ∷ [];
  albums = album ∷ [];
  photos = photo ∷ [];
  api_keys = [];
}

abbrev pub world : World
world = record { tables = tables; disk = []; faults = [] }

folders_apart : FolderApart outer inner
folders_apart = record { ids = ground arith; slugs = ground arith; keys = ground arith }

pub tables-IsConsistent : IsConsistent tables
unfolding text_eq
tables-IsConsistent = record {
  folders_apart = ((folders_apart, tt), (tt, tt));
  albums_apart = (tt, tt);
  photos_apart = (tt, tt);
  tree = (
    under outer refl refl (top refl),
    (under inner refl refl (under outer refl refl (top refl)), tt),
  );
  album_folders = (refl, tt);
  photo_albums = (refl, tt);
}

-- Every id is a uuid, every file an image.
abbrev pub tools : Tools
tools = record {
  probe = λ t. some (record { width = 100; height = 80; duration_ms = 0 });
  resize = λ t long quality blur. some (long ∷ []);
  probe_video = λ t. invalid;
  poster = λ t d. none;
  sha256 = λ t. t;
  parse_uuid = λ t. some t;
  json_strings = λ t. some [];
  json_object = λ t. some t;
}

abbrev pub passwords : Passwords
passwords = record {
  hash_password = λ pw. some (b'#' ∷ pw);
  check_password = λ h pw. text_eq h (b'#' ∷ pw);
}

abbrev pub jpeg : Upload
jpeg = record {
  staged = record { content = 0xff ∷ 0xd8 ∷ 0xff ∷ 0xe0 ∷ []; committed = false };
  size = 4;
  hash = codes "h2";
  head = 0xff ∷ 0xd8 ∷ 0xff ∷ 0xe0 ∷ [];
  name = codes "two.jpg";
}

-- A codec: 0 and the version stand in front of each id, whose bytes are shifted.
abbrev pub write : List Grant → Text
write [] = []
write (g ∷ gs) = 0 ∷ g.version ∷ (map suc g.album_id ++ write gs)

abbrev pub read : Text → Text × List Grant
read [] = ([], [])
read (zero ∷ []) = ([], [])
read (zero ∷ v ∷ t) = ([], record { album_id = (read t).0; version = v } ∷ (read t).1)
read (suc c ∷ t) = (c ∷ (read t).0, (read t).1)

read-id : (id t : Text) → read (map suc id ++ t) ≡ (id ++ (read t).0, (read t).1)
read-id [] t = refl
read-id (c ∷ id) t = rw (read-id id t) refl

pub read-write : (gs : List Grant) → read (write gs) ≡ ([], gs)
read-write [] = refl
read-write (g ∷ gs) = rw (read-id g.album_id (write gs), read-write gs, append-nil g.album_id) refl

abbrev pub read_session : Text → Option Session
read_session [] = none
read_session (e ∷ t) = some (record { expires = e; grants = (read t).1 })

pub unshift : (t : Text) → map (λ c. c - 100) (map (λ c. c + 100) t) ≡ t
unshift [] = refl
unshift (c ∷ t) = rw (unshift t) (ap (λ x. x ∷ t) (omega arith))

pub no_dot : (t : Text) → All (λ c. c ≢ b'.') (map (λ c. c + 100) t)
no_dot [] = tt
no_dot (c ∷ t) = ((λ e. omega arith), no_dot t)

abbrev pub codec : Codec
codec = record {
  marshal = λ s. s.expires ∷ write s.grants;
  unmarshal = read_session;
  encode64 = map (λ c. c + 100);
  decode64 = λ t. some (map (λ c. c - 100) t);
  sign = λ t. 7 ∷ t;
  unmarshal-marshal = λ s. rw (read-write s.grants) refl;
  decode64-encode64 = λ t. ap some (unshift t);
  encode64-HasNoDot = no_dot;
}

abbrev pub session : Session
session = record { expires = 500; grants = record { album_id = codes "a9"; version = 4 } ∷ [] }
