-- ===== src/Demos.antt =====
-- The demo applications (dyplodemoapp.cpp, dyplodemocryptoapp.cpp, dyplodemohdlapp.cpp).
pub mod Integers
pub mod Chain
pub mod Crypto
pub mod Mohdl
