-- ===== src/Pool.antt =====
-- internal/app/pool.go: the pool of verified endpoints.
pub mod Types
pub mod Slots
pub mod Acquire
pub mod Finish
pub mod Scan
pub mod Claims
pub mod System
pub mod Waiting
pub mod Runs
pub mod Total
pub mod Panics
pub mod Owned
pub mod Once
pub mod Ready
pub mod RoundRobin
pub mod Publication
pub mod History
pub mod Valid
pub mod Kept
