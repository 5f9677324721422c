-- ===== src/Stores.antt =====
-- The certificate stores of macOS and Windows: certstore/certstore_darwin.go and
-- certstore/certstore_windows.go, over the calls of the operating system as parameters.
pub mod Run
pub mod System
pub mod Counts
pub mod Mac
pub mod Windows
mod Tests
