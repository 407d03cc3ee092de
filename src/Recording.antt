-- ===== src/Recording.antt =====
-- market_engine/recording/l2.py: the binary Level-2 recording.
pub mod Event
pub mod Codec
pub mod Fields
pub mod RoundTrip
pub mod Header
pub mod HeaderTrip
pub mod File
pub mod Writer
pub mod Checkpoints
pub mod StateHash
pub mod Metadata
