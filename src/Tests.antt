-- ===== src/Tests.antt =====
-- Runs of the code at concrete inputs, and the theorems at them.
mod Queues
mod Files
mod Boards
mod Images
mod Streams
mod Runs
mod Settings
mod Solvers
mod Deliveries
mod LargeImages
mod Demos
