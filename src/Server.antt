-- ===== src/Server.antt =====
-- internal/server: the rate limiter, the handlers and the middleware.
pub mod RateLimit
pub mod Http
pub mod Handlers
pub mod Middleware
pub mod Recorder
pub mod Replies
pub mod Keeps
pub mod Safety
pub mod Served
mod Tests
