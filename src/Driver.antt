-- ===== src/Driver.antt =====
-- The driver of the PG-API, driver/pq3.py.
pub mod Transaction
pub mod Server
pub mod Level
pub mod Calls
pub mod Exit
pub mod Atomic
pub mod Nested
pub mod Stream
pub mod Cursor
pub mod Mirrored
