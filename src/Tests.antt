-- ===== src/Tests.antt =====
-- Concrete inputs for the theorems: two in-memory stores, crates that are plain functions, and servers
-- that are association lists.
mod Fixtures
mod Servers
mod Sql
mod Documents
mod Stores
mod Offline
mod Fresh
mod Fetched
mod Interleaved
mod Streams
mod Records
mod Loops
mod Building
mod Starting
mod Flags
mod Service
mod Command
mod Populate
mod Runs
