-- ===== src/Core.antt =====
-- The modules of src/core.
pub mod Crc32c
pub mod Mem
pub mod Err
pub mod Fmt
