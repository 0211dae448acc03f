-- ===== src/FileQueue.antt =====
-- Queues over file handles (filequeue.hpp, filequeue.cpp).
pub mod Poller
pub mod Output
pub mod Delivery
pub mod Input
pub mod Carry
pub mod Arrival
