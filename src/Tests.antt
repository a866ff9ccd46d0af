-- ===== src/Tests.antt =====
-- Concrete runs, and instances of the theorems at concrete inputs.
mod Vectors
mod Wire
mod Channel
mod Addresses
mod Access
mod Tunnels
mod Text
mod Names
mod Registry
mod Json
mod Handshake
mod Echo
