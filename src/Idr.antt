-- ===== src/Idr.antt =====
-- The agent on the hosts themselves (fwIDR): its queue, and the publisher that drains it.
pub mod Queue
pub mod Publisher
