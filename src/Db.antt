-- ===== src/Db.antt =====
-- The rows of the database (backend/internal/db) and the tables that hold them. A table is a list in
-- the order of insertion. An empty text stands for NULL where the columns are read by COALESCE and
-- written by NULLIF or nullIfEmpty. Times are numbers.
pub mod Folders
pub mod Albums
pub mod Photos
pub mod ApiKeys
pub mod Listed
pub mod Tree
pub mod Consistent
use smugbox.Common.{ℕ, Text, Bool, List, Option, ltb, length, if◌then◌else◌, some, none}
use smugbox.Exec.{Result, ok, err, key_taken, not_found, slug_taken, internal}

pub record Folder : Type 0 where
  pub id : Text
  pub parent_id : Text
  pub slug : Text
  pub name : Text
  pub idempotency_key : Text
  pub created_at : ℕ
  pub updated_at : ℕ

pub record Album : Type 0 where
  pub id : Text
  pub folder_id : Text
  pub slug : Text
  pub name : Text
  pub description : Text
  pub password_hash : Text
  pub password_version : ℕ
  pub is_listed : Bool
  pub cover_photo_id : Text
  pub idempotency_key : Text
  pub created_at : ℕ
  pub updated_at : ℕ

-- Whether the album requires a password.
abbrev pub protected : Album → Bool
protected a = ltb 0 (length a.password_hash)

pub record Photo : Type 0 where
  pub id : Text
  pub album_id : Text
  pub lr_photo_uuid : Text
  pub filename : Text
  pub mime_type : Text
  pub size_bytes : ℕ
  pub width : ℕ
  pub height : ℕ
  pub title : Text
  pub caption : Text
  pub keywords : List Text
  pub taken_at : Text
  pub exif : Text
  pub content_hash : Text
  pub duration_ms : ℕ
  pub sort_order : ℕ
  pub variants_ready : Bool
  pub created_at : ℕ
  pub updated_at : ℕ

pub record PhotoRef : Type 0 where
  pub album_id : Text
  pub id : Text

pub record ApiKey : Type 0 where
  pub id : Text
  pub prefix : Text
  pub hash : Text
  pub label : Text
  pub created_at : ℕ
  pub last_used_at : Option ℕ
  pub revoked_at : Option ℕ

pub record Tables : Type 0 where
  pub folders : List Folder
  pub albums : List Album
  pub photos : List Photo
  pub api_keys : List ApiKey

-- The constraint that refuses a statement: a unique index (code 2067), a primary key, or a foreign
-- key. Foreign keys are checked when the statement is done.
pub data Violation : Type 0 where
  unique primary_key foreign_key : Violation

pub data Executed : Type 0 where
  done : Tables → Executed
  violates : Violation → Executed

-- `isUniqueViolation` picks the answer of an insert into folders or albums, where `taken` is what
-- `hasIdempotencyKey` finds then; other violations are internal errors.
abbrev pub create_result : Bool → Executed → Result Tables
create_result taken (done t) = ok t
create_result taken (violates unique) = if taken then err key_taken else err slug_taken
create_result taken (violates v) = err internal

-- `wrapNotFound`, on a query for one row.
abbrev pub one_row {ℓ} : {A : Type ℓ} → Option A → Result A
one_row none = err not_found
one_row (some a) = ok a

-- `checkAffected`: an update or a delete that met no row.
abbrev pub check_affected : Bool → Tables → Result Tables
check_affected affected t = if affected then ok t else err not_found
