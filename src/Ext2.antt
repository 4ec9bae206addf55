-- ===== src/Ext2.antt =====
-- kernel/ext2.c and kernel/ext2.h: the file system ext2 on a disk.
pub mod Disk
pub mod State
pub mod Blocks
pub mod Inodes
pub mod Bitmaps
pub mod Names
pub mod Entries
pub mod Dirs
pub mod Files
pub mod Create
pub mod Delete
pub mod Geometry
pub mod Bits
pub mod Lookup
pub mod Search
pub mod Added
pub mod Paths
pub mod Keeps
pub mod Reading
mod Tests
