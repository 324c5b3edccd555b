-- ===== src/Fs.antt =====
-- The file system of fs/.
pub mod Bitmap
pub mod Device
pub mod Mkfs
pub mod Inode
pub mod Dir
pub mod DirEdit
pub mod Commands
pub mod Listing
pub mod Itable
pub mod BlockMap
pub mod FreeBlocks
pub mod ReadData
pub mod WriteData
pub mod Super
