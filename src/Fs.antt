-- ===== src/Fs.antt =====
-- The file system: the headers of include/fs and the sources of src/fs.
pub mod Path
pub mod MakeDirs
pub mod Buffers
pub mod TempPath
pub mod Descriptor
pub mod FileMode
pub mod FileStatus
pub mod Which
pub mod Ownership
pub mod Calls
pub mod INotify
pub mod Open
pub mod DirStream
pub mod RemoveTree
