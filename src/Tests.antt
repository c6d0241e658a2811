-- ===== src/Tests.antt =====
-- The theorems at concrete inputs.
mod Bacnet
mod Commands
mod Dedup
mod Idr
mod Devices
mod Poller
mod Polls
mod Queue
mod Worker
mod Ingest
mod Forward
