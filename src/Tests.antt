-- ===== src/Tests.antt =====
-- Runs of the model on concrete inputs, and the theorems at such inputs.
pub mod Pool
pub mod Store
pub mod Calls
pub mod Waiting
pub mod Admission
pub mod Cycle
pub mod Session
pub mod Control
pub mod LoadTest
pub mod Worker
pub mod Proxy
pub mod LogWriter
pub mod Listing
pub mod Headers
pub mod Web
pub mod Config
pub mod Commands
pub mod Launch
pub mod CheckIp
pub mod Build
pub mod Attempt
pub mod Application
