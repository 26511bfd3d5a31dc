-- ===== src/Loader.antt =====
-- vm/loader.c: reading a .kexe file.
pub mod Read
pub mod Records
pub mod Image
pub mod Writer
pub mod RoundTrip
pub mod Rules
pub mod Prefix
pub mod Facts
mod Tests
