-- ===== src/Rpc.antt =====
-- A whole remote call: the client of lib/searpc-client.c against the server of
-- lib/searpc-server.c, with a transport that hands the text over (Rpc/Loopback.antt), as
-- sample_send of tests/searpc.c does. Rpc/Request.antt is about the parameters on their way to the
-- function, Rpc/Reply.antt about the reply on its way back.
pub mod Array
pub mod Request
pub mod Reply
pub mod Loopback
pub mod AsyncLoopback
