-- ===== src/Storage.antt =====
-- The model cache of internal/storage: the path guard, the JSON index, the store's operations and
-- the fetchers. `Env` is what the package calls: the file system, the JSON codec, the digest.
pub mod Env
pub mod Paths
pub mod Index
pub mod Store
pub mod Restart
pub mod Flights
pub mod Fetchers
pub mod Tests
