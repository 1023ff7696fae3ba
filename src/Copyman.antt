-- ===== src/Copyman.antt =====
-- The COPY manager, copyman.py.
pub mod Wire
pub mod Position
pub mod Header
pub mod Tracking
pub mod Chunks
pub mod Realign
pub mod Aligned
pub mod Produce
pub mod Manager
pub mod Transfer
pub mod Completion
