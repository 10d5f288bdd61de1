-- ===== src/Tests.antt =====
-- The theorems at concrete inputs.
mod Memory
mod Stored
mod Streams
mod Devices
mod Controllers
mod Events
mod Auth
mod Services
mod Processes
mod Network
mod Scans
mod Instances
mod Logins
mod Updates
mod Secrets
