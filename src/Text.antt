-- ===== src/Text.antt =====
-- Text conversions of tools/pg_cluster_backend/psc/postgresql: strings are lists of code points.
pub mod Bytea
pub mod Quoting
pub mod Chunks
