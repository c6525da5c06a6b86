-- ===== src/Tests.antt =====
-- The theorems at concrete inputs, and runs of the definitions on the inputs of the unit tests.
pub mod Samples
pub mod Strings
pub mod Expiry
pub mod Lists
pub mod Protocol
pub mod Server
pub mod Interleaving
pub mod Dashboard
pub mod Cli
pub mod Limits
pub mod Restart
