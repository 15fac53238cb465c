-- ===== src/Storage.antt =====
-- src/core/storage/local_storage.cpp: the encrypted block store, its device, records and directory.
pub mod Bytes
pub mod Device
pub mod Maps
pub mod Records
pub mod Contents
pub mod MessageCache
pub mod Api
pub mod DirectoryLaws
mod Examples
