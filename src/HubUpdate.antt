-- ===== src/HubUpdate.antt =====
-- internal/hubupdate/update.go: when the hub updates itself, and to what.
pub mod Version
pub mod Manifest
pub mod AutoUpdate
pub mod Download
pub mod Latest
mod Examples
