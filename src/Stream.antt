-- ===== src/Stream.antt =====
-- internal/service/stream/service.go: which streams of an episode are offered, which one is
-- preferred, and how long the answer may be reused.
pub mod Expiry
pub mod Normalize
pub mod Select
pub mod Resolve
