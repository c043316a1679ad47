-- ===== src/Pack.antt =====
-- src/dmi/storage/capture/pack.py.
pub mod Bytes
pub mod Writer
pub mod Reader
pub mod RoundTrip
pub mod Records
pub mod Reading
pub mod Index
pub mod Accepting
pub mod Indexed
