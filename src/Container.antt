-- ===== src/Container.antt =====
-- internal/container: the requests, the Docker client that the package calls, GPU injection,
-- and the paired engine and benchmark run.
pub mod Spec
pub mod Docker
pub mod Runtime
pub mod Monad
pub mod Containers
pub mod Health
pub mod Artifacts
pub mod Logs
pub mod PairedRun
pub mod Manager
mod Tests
