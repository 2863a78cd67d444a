-- ===== src/Telemetry.antt =====
-- internal/telemetry: the log level and the endpoint, the instruments, and the health registry.
pub mod Setup
pub mod Instruments
pub mod Health
pub mod Ready
mod Tests
