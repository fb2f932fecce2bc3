-- ===== src/Sentinel.antt =====
-- internal/sentinel: the agent beside a validator, which collects, buffers and sends.
pub mod Buffer
pub mod Retry
pub mod Delta
pub mod Logs
pub mod Stats
pub mod Rpc
pub mod Config
pub mod App
pub mod Metadata
pub mod Self
pub mod Doctor
pub mod Otlp
pub mod Resources
