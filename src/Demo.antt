-- ===== src/Demo.antt =====
-- The demos of demo/: a client and a server that exchange packets over TCP, the server's functions
-- and the class of the objects that they send.
pub mod Packet
pub mod Transport
pub mod Laws
pub mod Session
pub mod TestObject
pub mod Service
pub mod Calls
pub mod Checks
pub mod Tcp
pub mod AsyncClient
