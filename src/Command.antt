-- ===== src/Command.antt =====
-- The way down: commands from DCS that write a field of a device (fwEDR/internal/command), and what
-- the threshold poller reads back from the same management agent (fwEDR/internal/threshold).
pub mod Fields
pub mod Thresholds
pub mod Apply
pub mod Readback
pub mod Location
pub mod Edit
