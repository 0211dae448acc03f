-- ===== src/Bitstream.antt =====
-- Reading an FPGA image: the byte helpers and FpgaImageReader of hardware.cpp.
pub mod Bytes
pub mod Description
pub mod Reader
pub mod Simulation
pub mod Writer
pub mod Chunks
pub mod Copy
pub mod Convert
pub mod Header
pub mod Parts
pub mod Image
