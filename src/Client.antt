-- ===== src/Client.antt =====
-- The class `Connection` of protocol/client3.py.
pub mod Transport
pub mod Reading
pub mod Writing
pub mod Arrival
pub mod Trash
pub mod Closing
pub mod Complete
pub mod Ended
pub mod Instructions
pub mod Connect
pub mod Private
