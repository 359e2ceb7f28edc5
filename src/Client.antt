-- ===== src/Client.antt =====
-- lib/searpc-client.c: the request that a call builds and the skeleton of the calls. The replies
-- are decoded in Client/Fret.antt, and the typed calls stand in Client/Call.antt and
-- Client/Async.antt. `W` is the state of the world that the transport acts on.
pub mod Request
pub mod Fret
pub mod Call
pub mod Generic
pub mod Async
