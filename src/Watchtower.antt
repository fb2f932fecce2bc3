-- ===== src/Watchtower.antt =====
-- internal/watchtower: the server that authenticates sentinels and forwards what they send.
pub mod Config
pub mod Auth
pub mod Stats
pub mod RateLimit
pub mod Handlers
pub mod Forwarder
