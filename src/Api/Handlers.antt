-- ===== src/Api/Handlers.antt =====
-- internal/api/handlers: the endpoints, each from the state that it reads or changes and the response
-- writer to the next ones.
pub mod Models
pub mod Containers
pub mod Host
pub mod Metrics
pub mod Stream
