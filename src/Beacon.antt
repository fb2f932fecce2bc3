-- ===== src/Beacon.antt =====
-- The beacon: it takes a sentinel's requests over the encrypted connection, adds what its sentry knows,
-- and passes them on to the watchtower.
pub mod Server
pub mod Augment
pub mod Config
