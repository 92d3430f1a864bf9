-- ===== src/Tests.antt =====
-- Runs of the modelled code at concrete inputs, and the theorems at such inputs.
mod Frames
pub mod Streams
mod Managers
pub mod Packets
pub mod Protections
pub mod Connections
pub mod Requests
mod Clients
mod Networks
