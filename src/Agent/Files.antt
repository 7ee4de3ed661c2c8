-- ===== src/Agent/Files.antt =====
-- agent/internal/filesystem/fs.go.
pub mod SafePath
pub mod Host
pub mod Upload
pub mod Listing
pub mod Chunks
