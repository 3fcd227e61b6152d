-- ===== src/Storage.antt =====
-- src/storage/leveldb_manager.cpp and include/storage/leveldb_manager.h. Each of the two files of
-- the manager is kept as three names: the file, its `.tmp` and its `.bak`. The name that `dataDir_`
-- gives them, and `ensureDirectory`, which creates the directory, are left out.
pub mod Files
pub mod Crash
pub mod Manager
pub mod Laws
pub mod Restart
pub mod Recovery
