-- ===== src/Platform.antt =====
-- The platform layer for Linux, src/tinybase-platform-linux.c: its functions on paths, files
-- and directories.
pub mod Path
pub mod File
pub mod Dir
