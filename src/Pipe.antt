-- ===== src/Pipe.antt =====
-- lib/searpc-named-pipe-transport.c (the Unix part): reading and writing a descriptor, the length
-- words that frame the messages, the text of a request with its service, the growth of the
-- server's buffer, the client's transport, the handler of a connection, both of them over one
-- connection, the start of a server and of a client, the accept loop, and the epoll server.
pub mod Io
pub mod Frame
pub mod Envelope
pub mod Buffer
pub mod Send
pub mod Handler
pub mod Connection
pub mod Epoll
pub mod Setup
pub mod Client
pub mod Listen
pub mod Windows
