-- ===== src/WatchMap/Update.antt =====
-- `update` of src/solver/watch_map.rs: `Unlink` and `Relink` are its two halves, `Moved` the whole.
pub mod Unlink
pub mod Relink
pub mod Lists
pub mod Moved
