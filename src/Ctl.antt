-- ===== src/Ctl.antt =====
-- cmd/sshhub-ctl/main.go: the operator's commands. What they print is a value where it says something.
pub mod Args
pub mod Update
pub mod Pin
pub mod Add
pub mod Listing
mod Examples
