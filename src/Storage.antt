-- ===== src/Storage.antt =====
-- The tables of include/scadaguard/local_storage.hpp and src/storage/local_storage.cpp.
pub mod Migrations
pub mod Queue
pub mod Tables
pub mod Signals
