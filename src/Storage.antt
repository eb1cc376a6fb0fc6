-- ===== src/Storage.antt =====
-- storage/page.h and storage/disk_manager.cpp.
pub mod Page
pub mod Disk
pub mod Stored
pub mod Order
mod Tests
