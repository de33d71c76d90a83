-- ===== src/Lib.antt =====
-- smugbox, a photo gallery server: a model of its Go backend (backend/) and what holds of it.
--
-- The server keeps folders, albums and photos in SQLite, photo files below a data directory, and a
-- signed cookie in each visitor's browser. Lightroom publishes through the handlers of the publish
-- API, which call the database and the library of photo files; visitors unlock albums by password;
-- an admin command removes files that no row refers to.
--
-- The files of this development, and the code that each is about:
-- - Common: lists, options, texts as bytes, UTF-8, and the tests on numbers.
-- - Exec: Go functions that change state and may return an error; what was written before an error
--   stays written. Exec.Keeps and Exec.Runs have one rule for each way to build such a function.
-- - Db: the rows and statements of backend/internal/db. A table is a list of rows; a statement is a
--   function on the tables that checks the unique indexes and foreign keys of the schema and carries
--   out its cascades. The recursive queries on folders run on fuel, the number of folders, which
--   suffices since a tree has no longer chain. The query on idempotency keys behind a failed insert
--   has no fault of its own: its failure, like the insert's, is an internal error. Db.Tree is about the tree of folders, Db.Consistent
--   about the invariant of all tables.
-- - Storage: backend/internal/storage/storage.go, gcTargets and gc of backend/cmd/smugbox/admin.go. The
--   disk is a list of files; Walk and gc work on the directories in photos/, whose paths are kept as
--   names. RemoveAll removes all or fails with nothing done. The files in incoming/ are no part of the
--   disk: not the staged ones, which Abort removes, nor the throwaway thumb and poster of a probe.
-- - Media: how the kind of a file is told from its first bytes (backend/internal/video/video.go,
--   backend/internal/image/image.go). What libvips, ffprobe, ffmpeg, encoding/json, crypto/sha256 and
--   github.com/google/uuid do enters through the record `Tools`.
-- - World: tables, disk, and a list of faults that says which of the calls to come fail. So whatever
--   is proved for every world holds whichever system calls and statements fail.
-- - Db.Listed: the summaries and lists of backend/internal/db; a summary is computed for one album.
--   Times are ordered as numbers, where SQL compares their texts.
-- - Library.Locks: photoLocks of backend/internal/library/library.go. Its calls run at once here: a step
--   is what one call does under the mutex of the map, or one Lock or Unlock of a photo's mutex.
-- - Library: Stage, Ingest, Render and Remove of backend/internal/library. Each is one step, since it
--   holds the photo's lock; Ingest takes the lock only behind its checks, which change nothing.
-- - Auth: the token bucket limiter and the visitor session of backend/internal/auth. The limiter
--   counts units of which 60000000000 make one token, so that a refill per minute is a whole number
--   per nanosecond; the source's float64 is not modelled. encoding/json, base64 and HMAC enter through
--   the record `Codec`, whose laws are that they can be undone and that base64url has no dot.
-- - Auth.ApiKey and Api.Keys: backend/internal/auth/apikey.go and requireAPIKey of
--   backend/internal/api/publish_auth.go.
-- - Slug: slugify and its suffix of backend/internal/api/slug.go, and validSlug. The NFKD form and the
--   table of combining marks are arguments.
-- - Api: the handlers of backend/internal/api/publish_folders.go and publish_albums.go, withUniqueSlug
--   (at most eleven attempts), albumAccess and unlockAlbum. A handler fails with the status and code
--   that it answers, and returns the row from which the source writes its JSON. The parsed body, the
--   clock, new uuids and the random source are arguments; bcrypt is the record `Passwords`.
-- - Api.Visitor, Api.Disposition and Api.Download: what visitors are sent
--   (backend/internal/api/albums.go, folders.go, photos.go, download.go), before it is written as JSON.
--   The loop that looks for a free name runs on one step more than there are keys, which suffices.
-- - Api.Worker: variantWorker of backend/internal/api/variants.go. Its kicks and its loop are steps that
--   interleave; a drain is one step, on as many rounds as begin before the context is cancelled.
-- - Api.Access.Held, Api.Albums.Versions: the cookies that visitors may hold over the life of an album,
--   and what may become of its row.
-- - Api.Uploads: uploadPhoto, replacePhoto and readUpload of backend/internal/api/publish_photos.go.
-- - Theme: the loading of a theme (backend/internal/theme/theme.go) from the listing of its files.
-- - Admin: the commands of backend/cmd/smugbox/admin.go that change rows.
-- - Server: all of these operations one after the other, as a step relation on the world.
-- - Tests: the theorems at concrete inputs.
--
-- Except for the photo locks and the kicks of the worker, the model runs one handler at a time. Not
-- modelled: interleavings of requests, the writing of JSON, search, the middleware, the configuration,
-- page templates, the list commands, and the frontend and plugin, which are in other languages.
pub mod Common
pub mod Auth
pub mod Slug
pub mod Exec
pub mod Db
pub mod Storage
pub mod Media
pub mod World
pub mod Library
mod Tests
pub mod Api
pub mod Theme
pub mod Admin
pub mod Server
