-- ===== src/Gpu.antt =====
-- internal/gpu: the GPUs of the host, by the output of the vendors' tools, and their polling.
pub mod Text
pub mod Types
pub mod Sound
pub mod Nvidia
pub mod Amd
pub mod Intel
pub mod Lines
pub mod Detector
pub mod Poller
mod Tests
