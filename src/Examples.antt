-- ===== src/Examples.antt =====
-- A JSON library to run the model with, and the theorems applied to concrete inputs.
pub mod Tree
pub mod TreeJson
pub mod Devices
mod Packets
mod Pairing
mod Connections
mod Plugins
mod Lines
mod Covers
mod Streams
mod Downloads
mod Console
mod Peers
mod Discovered
mod Requests
