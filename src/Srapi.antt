-- ===== src/Srapi.antt =====
-- libs/srapi: the software rendering library.
pub mod Types
pub mod Vm
pub mod Exec
pub mod Pool
pub mod Shade
pub mod Render
pub mod Command
pub mod Queue
