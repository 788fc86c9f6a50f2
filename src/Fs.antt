-- ===== src/Fs.antt =====
-- pkg/fs: file names, file types, and the lists of ignored files.
pub mod FileType
pub mod Ignore
