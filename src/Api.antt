-- ===== src/Api.antt =====
-- Package api (backend/internal/api): the handlers of the publish API, and a visitor's access. A handler
-- fails with the answer it has written. The parsed body of a request, the clock, new uuids and the
-- random source are arguments.
pub mod Kept
pub mod UniqueSlug
pub mod Folders
pub mod Albums
pub mod Access
pub mod Keys
pub mod Disposition
pub mod Visitor
pub mod Download
pub mod Worker
pub mod Uploads
use smugbox.Media.{Tools}
use smugbox.World.{World, query}
use smugbox.Exec.{Exec, Result, Failure, ok, err, fail, return, attempt, not_found, answered, ◌>>=◌}
use smugbox.Db.Folders.{get_folder}
use smugbox.Common.{
  ℕ, Option, Text, trim_space, Bool, String, some, if◌then◌else◌, is_empty, ltb, runes, none, ◌||◌,
  [], length, not, any, is_some,
}

abbrev pub max_name_len : ℕ
max_name_len = 200

abbrev pub max_idempotency_key_len : ℕ
max_idempotency_key_len = 128

unfoldable pub valid_name : Text → Result Text
unfolding trim_space
valid_name name =
    let n = trim_space name in
    if is_empty n || ltb max_name_len (length n) then err (answered 400 "invalid_name") else ok n

abbrev pub not_printable : ℕ → Bool
not_printable c = ltb c 0x21 || ltb 0x7e c

-- The trimmed key, empty when absent.
unfoldable pub valid_idempotency_key : Option Text → Result Text
unfolding trim_space runes
valid_idempotency_key none = ok []
valid_idempotency_key (some key) =
    let k = trim_space key in
    if ltb max_idempotency_key_len (length k) || any not_printable (runes k)
    then err (answered 400 "invalid_idempotency_key")
    else ok k

-- `internalError`
abbrev pub internal_error : Failure
internal_error = answered 500 "internal_error"

module _ {A : Type 0} where
  -- Every error of a call is an internal one.
  unfoldable pub or_internal : Result A → Exec World A
  or_internal (ok a) = return a
  or_internal (err e) = fail internal_error

  -- A missing row has its own answer.
  unfoldable pub found_or : ℕ → String → Result A → Exec World A
  found_or status code (ok a) = return a
  found_or status code (err not_found) = fail (answered status code)
  found_or status code (err e) = fail internal_error

  -- What an idempotency key has made before.
  unfoldable pub prior : Result A → Exec World (Option A)
  prior (ok a) = return (some a)
  prior (err not_found) = return none
  prior (err e) = fail internal_error

  -- A row that is already gone is deleted.
  unfoldable pub gone_or_internal : Result A → Exec World (Unit {0})
  gone_or_internal (ok a) = return tt
  gone_or_internal (err not_found) = return tt
  gone_or_internal (err e) = fail internal_error

-- A name is required where something is created.
unfoldable pub required_name : Option Text → Result Text
unfolding valid_name
required_name none = err (answered 400 "invalid_name")
required_name (some name) = valid_name name

unfoldable pub new_name : Text → Option Text → Result Text
unfolding valid_name
new_name old none = ok old
new_name old (some name) = valid_name name

module _ (tools : Tools) where
  -- `parent_id` on the wire; the empty one is the root.
  unfoldable pub resolve_parent_folder : Text → Exec World Text
  unfolding found_or
  resolve_parent_folder id =
      if is_empty id
      then return []
      else if not (is_some (tools.parse_uuid id))
      then fail (answered 400 "folder_not_found")
      else do r ← attempt (query (get_folder id)); f ← found_or 400 "folder_not_found" r; return id

  unfoldable pub parent_or : Text → Option Text → Exec World Text
  unfolding resolve_parent_folder
  parent_or old none = return old
  parent_or old (some id) = resolve_parent_folder id
