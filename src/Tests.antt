-- ===== src/Tests.antt =====
-- The tests, and the theorems at concrete inputs.
mod Data
mod Disk
mod SledStore
mod Alike
mod Cursor
mod Settings
mod Memory
mod Limits
mod Serving
mod Starting
mod Collector
mod Keys
mod Answering
