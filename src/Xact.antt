-- ===== src/Xact.antt =====
-- tools/pg_cluster_backend/psc/postgresql/protocol/xact3.py: the state machines of the client.
pub mod Hook
pub mod Instruction
pub mod Put
pub mod Fast
pub mod Negotiation
pub mod Table
pub mod Placed
pub mod Turns
pub mod Position
pub mod Shortcut
pub mod Copying
pub mod Rows
pub mod Sound
pub mod Authenticated
