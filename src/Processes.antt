-- ===== src/Processes.antt =====
-- The processes that stand between two queues: cooperativeprocess.hpp, threadedprocess.hpp, thread.hpp.
pub mod Blocks
pub mod Cooperative
pub mod Threaded
pub mod Lifecycle
