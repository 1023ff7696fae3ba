-- ===== src/Buffer.antt =====
-- tools/pg_cluster_backend/psc/postgresql/protocol/pbuffer.py: data read from the wire is kept
-- until a message is complete. Python's `io.BytesIO` is in `Buffer/File.antt`.
pub mod File
pub mod Stream
pub mod Compact
pub mod Spec
pub mod Refine
pub mod Observe
pub mod Count
pub mod Cut
pub mod Fragments
