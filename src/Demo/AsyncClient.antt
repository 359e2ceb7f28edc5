-- ===== src/Demo/AsyncClient.antt =====
-- demo/demo-async-client.c: its callback and its main, over the transport of Demo/Transport.
pub mod Served
use libsearpc.Prelude.{none, some, Option, List, [], ◌∷◌, ◌++◌, ℤ, pos}
use libsearpc.Jansson.{Jansson}
use libsearpc.Types.{GError, Run, done, crash, null_pointer, Objects, Value}
use libsearpc.Client.Request.{Param}
use libsearpc.Client.Call.{SearpcClient, AsyncCallData}
use libsearpc.Client.Async.{searpc_client_async_call__int}
use libsearpc.Pipe.Io.{Fd}
use libsearpc.Demo.Packet.{Demo, goes_on, exits, waits, crashes, ◌>>=◌}
use libsearpc.Demo.Service.{strlen_name}
use libsearpc.Demo.Checks.{hello_searpc}
use libsearpc.Demo.Tcp.{TcpOutcomes, connected_or_exit}
use libsearpc.Demo.Transport.{TcpTransport, transport_send, transport_read}

-- What the callbacks have printed, or the fault that ended the program in one.
abbrev pub Printed : Type 0
Printed = Run (List ℤ)

module _ (J : Jansson) (O : Objects J) where
  -- The result is read as an int; the error is not looked at. The user data is the same text in
  -- every call.
  unfoldable pub strlen_callback : Option (Value J O) → Option GError → Printed → Printed
  strlen_callback vresult error (crash fault) = crash fault
  strlen_callback (some (Value.int len)) error (done lengths) = done (lengths ++ (len ∷ []))
  strlen_callback vresult error (done lengths) = crash null_pointer

  -- The world of the client's calls: the transport and its descriptor, or the program's end.
  abbrev pub Sending : Type 0
  Sending = Demo (TcpTransport J O Printed)

  -- The program has one callback, which stands in what the transport keeps.
  abbrev pub strlen_call : AsyncCallData J O Sending → AsyncCallData J O Printed
  strlen_call call = record {
    callback = strlen_callback;
    ret_type = call.ret_type;
    gtype = call.gtype;
  }

  -- rpc_client with transport_send as its `async_send`; it has no synchronous transport.
  unfoldable pub async_client : SearpcClient J O Sending
  unfolding transport_send
  async_client = record {
    send = λ fcall_str sending. (none, sending);
    async_send = λ fcall_str call sending. (
      pos 0,
      sending >>= λ trans fd. transport_send J O Printed fd trans fcall_str (strlen_call call),
    );
  }

  unfoldable pub after_read : TcpTransport J O Printed × Printed → Fd → Demo (List ℤ)
  after_read (trans, done lengths) fd = goes_on lengths fd
  after_read (trans, crash fault) fd = crashes fault

  -- main: the status of the call is not tested. What it prints.
  unfoldable pub async_main : TcpOutcomes → Fd → Demo (List ℤ)
  unfolding connected_or_exit searpc_client_async_call__int async_client strlen_callback
      transport_read after_read
  async_main os fd = connected_or_exit os (
      (searpc_client_async_call__int J O Sending async_client (some strlen_name)
        (λ result error sending. sending) (Param.string (some hello_searpc) ∷ [])
        (goes_on (record { rpc_priv = none }) fd)).1
      >>= λ trans fd1. transport_read J O Printed fd1 trans (done []) >>= after_read)
