-- ===== src/Proto.antt =====
-- The modules of src/proto: the wire protocol.
pub mod Op
pub mod Refusal
pub mod Flag
pub mod Msg
pub mod Conn
