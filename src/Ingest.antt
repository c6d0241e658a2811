-- ===== src/Ingest.antt =====
-- The ingest side of DCS (fwDCS/internal/ingest).
pub mod Cache
pub mod Classifier
pub mod Dedup
pub mod Packet
pub mod Links
pub mod Worker
