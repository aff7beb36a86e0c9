-- ===== src/Fs.antt =====
-- kernel/fs and include/pbos/fs: the nodes of the file systems, their reference counts, and paths.
pub mod Node
pub mod Path
pub mod Files
pub mod Rootfs
pub mod Tests
