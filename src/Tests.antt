-- ===== src/Tests.antt =====
-- Runs of the theorems on concrete requests, replies, tables, descriptors, objects and packets.
pub mod Setting
pub mod Calls
pub mod Tables
pub mod Wire
pub mod Connections
pub mod Demos
pub mod Packets
pub mod Mains
pub mod Async
pub mod Final
pub mod Platforms
pub mod Pipes
