-- ===== src/Forward.antt =====
-- The forwarder, which pushes what DCS stores to the Aggregator (fwDCS/internal/forwarder).
pub mod Rows
pub mod Payload
pub mod Chunk
pub mod Convert
pub mod Scope
pub mod Gate
pub mod Post
pub mod Cursor
pub mod Action
pub mod Queries
pub mod Push
pub mod Tables
pub mod Commands
