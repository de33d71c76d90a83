-- ===== src/Library.antt =====
-- Package library (backend/internal/library): the life of a photo's files.
pub mod Locks
pub mod Metadata
pub mod Renditions
pub mod Ingest
pub mod Render
