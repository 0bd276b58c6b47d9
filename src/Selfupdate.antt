-- ===== src/Selfupdate.antt =====
-- internal/selfupdate: the newest release, and the replacement of the running binary with it.
pub mod Machine
pub mod Release
pub mod Install
pub mod Keeps
pub mod Temporary
pub mod Verified
pub mod Replaced
pub mod Picks
