-- ===== src/Poller.antt =====
-- The resilience machinery of the SNMP poller (fwEDR/internal/poller/poller.go). Times are
-- nanoseconds since 1970, as UnixNano gives them, and are arguments; each atomic method is one step.
pub mod Breaker
pub mod Collect
pub mod Health
pub mod Poll
pub mod Sockets
pub mod State
pub mod Throttle
pub mod Limiter
