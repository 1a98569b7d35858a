-- ===== src/Examples.antt =====
-- The theorems at concrete inputs, and what the code does on them.
pub mod Samples
pub mod Records
pub mod Storage
pub mod Planning
pub mod Capturing
pub mod Responses
pub mod Reports
pub mod Services
pub mod Networking
pub mod Devices
pub mod Packages
pub mod Threads
pub mod Pages
