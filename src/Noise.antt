-- ===== src/Noise.antt =====
-- pkg/noise: the encrypted connection between a sentinel and a beacon.
pub mod Frame
pub mod Conn
pub mod Handshake
pub mod Keys
pub mod Listen
