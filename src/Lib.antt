-- ===== src/Lib.antt =====
-- libsearpc is a remote procedure call library. A client turns a call into a JSON array with the
-- function's name and its parameters, hands the text to a transport, and decodes the reply, an
-- object with the member "ret" or with "err_code" and "err_msg". A server keeps a table of services
-- with their functions and a table of marshals by signature; it loads the request, looks the
-- function up, lets its marshal call it, and answers with the marshal's text. The transport of the
-- repository is a named pipe (a Unix socket) with messages behind a 32-bit length.
--
-- Files and what they model:
--   Prelude, and below it Tests, Lists, Int, Strings: Boolean tests, lists, integers of C with their
--     wrap-around, and C strings as lists of bytes.
--   Jansson: the JSON library, an interface of operations and documented laws, since its code is not
--     in the repository. Jansson/Plain is a concrete instance for runs.
--   Types: errors, faults of the process, return types and values, and the interface of the object
--     codec that client and server call.
--   Codec: lib/searpc-utils.c, which fills that interface. Codec/System is GLib's object system, an
--     interface since its code is not in the repository; Codec/Cast the integer types of properties;
--     Codec/Serialize and Codec/Deserialize the two directions, with json_serialize_pspec and
--     json_deserialize_pspec; Codec/Fits the objects that survive both; Codec/Bridge the instance.
--   Utils: the inline helpers of lib/searpc-utils.h.
--   Client/Request, Client/Fret, Client/Call, Client/Generic, Client/Async: lib/searpc-client.c, the
--     encoding of a call (fcall_to_str), the decoding of replies (handle_ret_common and
--     searpc_client_fret__*), the typed calls, the call by the name of the return type, and the
--     asynchronous calls.
--   Server/Table, Server/Registry: the hash tables of lib/searpc-server.c with the addresses of keys
--     and values, and the operations that fill them; Server/Registry/Final: the blocks that the destroy
--     functions and searpc_server_final free. A lookup or an insertion that compares with a key in a
--     freed item is the fault use_after_free, which only the table of functions can come to; the other
--     two tables use lookup_live and insert_live (Server/Registry/Final/Keys). Hash values of different
--     names are taken as different there. GLib's containers and strings are modelled by their
--     documented behaviour. Server/Reply, Server/Marshal: the reply's text, and the marshals
--     that lib/searpc-codegen.py generates. Server/SlowLog: the slow log. Server/Call:
--     searpc_server_call_function.
--   Rpc: client and server together through the in-process transports of tests/searpc.c; sample_send in
--     Rpc/Loopback and sample_async_send in Rpc/AsyncLoopback.
--   Pipe/Io, Pipe/Frame, Pipe/Envelope, Pipe/Buffer, Pipe/Send, Pipe/Handler:
--     lib/searpc-named-pipe-transport.c on Unix, the loops around read and write, the length words,
--     the text with service and call, the growth of the server's buffer, searpc_named_pipe_send, and
--     the loop of named_pipe_client_handler. Pipe/Connection puts the two ends together, Pipe/Client
--     calls through them: Pipe/Client/Typed sets its typed calls next to those in one process, and
--     Pipe/Connection/Session is about many calls over one connection. Pipe/Setup: creating both
--     ends, searpc_named_pipe_server_start and searpc_named_pipe_client_connect, as traces of system
--     calls whose outcomes are arguments.
--     Pipe/Listen: the accept loop without epoll. Pipe/Epoll: epoll_handler, and in Pipe/Epoll/Listener
--     epoll_listen with its workers as steps on their shared state. Pipe/Windows: the Windows branches
--     of the same file, where a pipe carries messages: pipe_read_n, pipe_write_n, the loop that opens
--     the pipe, the accept loop, and in Pipe/Windows/Send searpc_named_pipe_send on them; names that
--     both branches have end in _windows there.
--   Demo: the programs of demo/. Demo/Packet: the packets of searpc-demo-packet.h; Demo/Transport: the
--     transports of the two clients and a round of the server's loop; Demo/TestObject: test-object.c as
--     an instance of GLib's interface; Demo/Service: the functions that start_rpc_service registers;
--     Demo/Checks: the tests of searpc-demo-client.c, rpc_string_test and rpc_glist_test; Demo/Tcp and
--     Demo/AsyncClient: the main functions of the three programs, with the outcomes of the socket calls
--     as arguments.
--   Tests: the theorems at concrete inputs.
--
-- How the code is modelled: a call returns a value of Run, which is a result or the fault that ends
-- the process; what remote functions and transports do is explicit in a world that is passed on. A
-- descriptor is a record of the events that read and write will meet, the bytes to be read and the
-- bytes written; Io adds the call that waits for ever. The loops around read and write recurse on
-- the events, so they need no fuel. The doubling of the buffer has fuel: 32 rounds suffice for every
-- length up to 2 ^ 31, and above that length no number of rounds does. handle_rounds takes the number
-- of rounds of the handler's loop; a connection with n requests needs n. A length word is four bytes
-- in little-endian order. The content of fresh memory is a parameter (malloc).
--
-- json_gobject_serialize and json_gobject_deserialize take the number of nested calls that the
-- stack has room for, and end in stack_overflow without it. In the steps of the epoll server each
-- step is atomic; g_free of a dead block and close of a closed descriptor are faults. A read of
-- the demos that asks for more than its buffer has room for is counted as undefined, whether or
-- not the peer sends as much.
--
-- Not modelled: memory management other than the items of the server's tables and the blocks of
-- the epoll server; locks; formatErrorMessage of the Windows branches, and the handler's loop on
-- them; the count of the pool's threads, which only causes a warning; MD5, which is a parameter of
-- searpc_compute_signature; the copy of inet_pton in the demos; searpc_client_new and
-- searpc_client_free; the text that the code generator writes; the test cases, the Python binding
-- and the copy of the clar test framework.
pub mod Prelude
pub mod Jansson
pub mod Types
pub mod Codec
pub mod Utils
pub mod Client
pub mod Server
pub mod Rpc
pub mod Pipe
pub mod Demo
pub mod Tests
