-- ===== src/Examples.antt =====
-- Runs at concrete inputs, and the theorems at inputs that meet their conditions.
mod Messages
mod Streams
mod Transactions
mod Locks
mod Texts
mod Workers
mod Services
mod Clients
mod Copying
mod Blocks
mod Cursors
