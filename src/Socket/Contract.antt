-- ===== src/Socket/Contract.antt =====
-- What the socket functions promise to the Lua scripts and to mTCP.
pub mod Listing
pub mod Handling
pub mod Connecting
pub mod Registration
pub mod Arming
pub mod Waiting
pub mod Waking
pub mod Expiring
pub mod Reading
pub mod Limits
