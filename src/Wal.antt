-- ===== src/Wal.antt =====
-- The modules of src/wal: the write-ahead log.
pub mod Record
pub mod Index
pub mod Segment
pub mod Log
pub mod Cursor
