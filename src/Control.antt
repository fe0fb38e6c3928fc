-- ===== src/Control.antt =====
-- internal/control: the registration of agents and the tunnels to them.
pub mod Registry
pub mod Server
pub mod Tunnels
pub mod Refinement
pub mod Distinct
pub mod Listener
pub mod Tokens
pub mod Listing
pub mod Client
mod Examples
