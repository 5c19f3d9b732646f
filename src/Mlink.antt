-- ===== src/Mlink.antt =====
-- tools/dev/mlink: the static ELF64 linker.
pub mod Bytes
pub mod Types
pub mod Symtab
pub mod Select
pub mod Resolve
pub mod Layout
pub mod Reloc
pub mod Macros
pub mod Reader
pub mod Emit
pub mod Input
pub mod Args
pub mod Link
pub mod Main
