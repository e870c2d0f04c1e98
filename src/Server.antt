-- ===== src/Server.antt =====
-- The modules of src/server.
pub mod Session
pub mod Loop
pub mod Main
