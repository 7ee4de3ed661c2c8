-- ===== src/Os.antt =====
-- What the programs use of Go's packages os and path/filepath, on a Unix system.
pub mod Path
pub mod Disk
