-- ===== src/Storage.antt =====
-- The files of storage/.
pub mod Frame
pub mod Page
pub mod Pager
pub mod Index
