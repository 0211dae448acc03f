-- ===== src/Schedulers.antt =====
-- The schedulers that a queue can be built with.
pub mod Noop
pub mod Pthread
pub mod Waits
pub mod Cooperative
