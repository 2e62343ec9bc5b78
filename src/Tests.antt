-- ===== src/Tests.antt =====
-- The theorems at concrete inputs, by crate.
mod Core
mod Daemon
mod Desktop
mod Engine
mod Input
mod Recorded
mod Server
mod Tools
