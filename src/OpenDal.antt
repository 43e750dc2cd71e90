-- ===== src/OpenDal.antt =====
-- core/go/storage/opendal.go: the record store over one bucket, a module for each group of methods.
pub mod Point
pub mod Due
pub mod Timers
pub mod View
pub mod Ledger
pub mod Delete
pub mod Latest
pub mod Records
pub mod Quarantine
pub mod Walk
pub mod Listing
pub mod Entry
pub mod Scan
