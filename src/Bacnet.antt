-- ===== src/Bacnet.antt =====
-- The BACnet/IP codec (fwEDR/internal/bacnet/codec.go): its encoders, its frame parsers and its
-- decoders. Bytes are numbers, a frame is the list of its bytes, and a position is an index into it.
pub mod Encode
pub mod Frame
pub mod Tag
pub mod Request
pub mod Response
pub mod Notify
pub mod Objects
