-- ===== src/Admin.antt =====
-- The admin commands that change state (backend/cmd/smugbox/admin.go), without their parsing of
-- flags and their printing. An error's message is its code here; a password is what was read from
-- the terminal.
pub mod Keys
pub mod Password
use smugbox.Api.Albums.{Passwords}
use smugbox.Auth.ApiKey.{generate_api_key, api_key_prefix}
use smugbox.World.{World, query, execute, remove_album_dir}
use smugbox.Media.{Tools}
use smugbox.Db.{Album, ApiKey}
use smugbox.Db.ApiKeys.{create_api_key, revoke_api_key}
use smugbox.Db.Albums.{get_album_by_slug, update_album, delete_album}
use smugbox.Exec.{
  Exec, Result, Failure, ok, err, fail, return, lift, attempt, client, not_found, internal, ◌>>=◌,
  ◌>>◌,
}
use smugbox.Common.{
  ℕ, Text, List, Bool, Option, none, some, [], if◌then◌else◌, ◌+◌, is_empty, String, true, false,
}

abbrev pub drawn : Option Text → Result Text
drawn none = err internal
drawn (some plain) = ok plain

abbrev pub prefix_or_empty : Option Text → Text
prefix_or_empty none = []
prefix_or_empty (some prefix) = prefix

abbrev pub new_key : (Text → Text) → Text → Text → ℕ → Text → ApiKey
new_key sha256 id label now plain = record {
  id = id;
  prefix = prefix_or_empty (api_key_prefix plain);
  hash = sha256 plain;
  label = label;
  created_at = now;
  last_used_at = none;
  revoked_at = none;
}

-- `createAPIKey`: the answer is the key that is printed, and stored nowhere.
unfoldable pub create_key :
    (Text → Text) → (Text → Text) → Text → Text → ℕ → List ℕ → Exec World Text
unfolding generate_api_key api_key_prefix
create_key sha256 base64 id label now random = do
  plain ← lift (drawn (generate_api_key base64 random))
  execute (create_api_key (new_key sha256 id label now plain))
  return plain

module _ {A : Type 0} where
  -- A missing row has its own message.
  abbrev pub or_none : String → Result A → Exec World A
  or_none message (ok a) = return a
  or_none message (err not_found) = fail (client message)
  or_none message (err e) = fail e

-- `revokeAPIKey`
unfoldable pub revoke_key : Text → ℕ → Exec World (Unit {0})
revoke_key id now = do
  r ← attempt (execute (revoke_api_key id now))
  or_none "no active key with that id" r

module _ (passwords : Passwords) where
  abbrev pub hashed : Option Text → Result Text
  hashed none = err internal
  hashed (some hash) = ok hash

  -- The new hash; the terminal is read only if the password is not to be removed.
  unfoldable pub new_hash : Bool → Result Text → Result Text
  new_hash true typed = ok []
  new_hash false (err e) = err e
  new_hash false (ok pw) =
      if is_empty pw
      then err (client "password must not be empty (use --clear to remove it)")
      else hashed (passwords.hash_password pw)

  abbrev pub with_hash : ℕ → Text → Album → Album
  with_hash now hash a = record a {
    password_hash = hash;
    password_version = a.password_version + 1;
    updated_at = now;
  }

  -- `setPassword`: the answer is the row that was written.
  unfoldable pub set_password : Text → Bool → Result Text → ℕ → Exec World Album
  unfolding new_hash
  set_password slug clear typed now = do
    r ← attempt (query (get_album_by_slug slug))
    a ← or_none "no album with that slug" r
    hash ← lift (new_hash clear typed)
    execute (update_album (with_hash now hash a))
    return (with_hash now hash a)

abbrev pub unless_gone : Result (Unit {0}) → Exec World (Unit {0})
unless_gone (ok u) = return tt
unless_gone (err not_found) = return tt
unless_gone (err e) = fail e

-- `deleteAlbum`: that files stay behind is only a warning.
unfoldable pub delete_album_by_slug : Tools → Text → Exec World (Unit {0})
delete_album_by_slug tools slug = do
  r ← attempt (query (get_album_by_slug slug))
  a ← or_none "no album with that slug" r
  s ← attempt (execute (delete_album a.id))
  unless_gone s
  attempt (remove_album_dir tools a.id)
  return tt
