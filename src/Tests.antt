-- ===== src/Tests.antt =====
-- A market in memory, and the theorems at it.
pub mod Market
mod Runs
mod Examples
mod Services
mod Lists
pub mod Keyring
mod Requests
mod Measured
mod Shown
mod Accounts
mod Sockets
mod Links
