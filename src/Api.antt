-- ===== src/Api.antt =====
-- internal/api: the authentication of requests, the checks of the benchmark handler, the handlers
-- and the router.
pub mod Auth
pub mod Benchmark
pub mod Http
pub mod Handlers
pub mod Middleware
pub mod Router
pub mod Tests
