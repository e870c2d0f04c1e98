-- ===== src/Sys.antt =====
-- The module of src/sys that the log uses.
pub mod Os
pub mod Net
