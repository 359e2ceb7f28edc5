-- ===== src/Server.antt =====
-- lib/searpc-server.c: the registry of services and marshals, the construction of replies, the
-- marshals of lib/searpc-codegen.py, the slow log, and the call of a function.
pub mod Table
pub mod Registry
pub mod Reply
pub mod Marshal
pub mod SlowLog
pub mod Call
