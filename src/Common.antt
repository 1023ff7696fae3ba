-- ===== src/Common.antt =====
-- tools/pg_cluster_backend/psc/pgstatcommon/pg_stat_common.py: values of the configuration file,
-- masks, and the signal handler. Texts are lists of code points.
pub mod Values
pub mod Masks
