-- ===== src/Tests.antt =====
-- The theorems at concrete inputs.
mod Data
mod Auth
mod Db
mod Files
mod Api
mod Locks
mod Visitors
mod Worker
mod Theme
mod Uploads
mod Admin
mod Server
