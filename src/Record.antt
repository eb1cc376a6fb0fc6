-- ===== src/Record.antt =====
-- record/: fixed-length records in pages.
pub mod Bitmap
pub mod File
pub mod Slots
pub mod Contents
pub mod Calls
pub mod Reread
pub mod Insert
pub mod Overrun
pub mod Create
pub mod Scan
mod Tests
