-- ===== src/FileView.antt =====
-- Memory-mapped files: cero/util/file_view.hh, with file_view.posix.cc and file_view.win.cc.
pub mod System
pub mod Platform
pub mod Posix
pub mod Windows
pub mod Ownership
pub mod Native
mod Tests
