-- ===== src/Tests/Connections.antt =====
-- Runs of the theorems on the two ends of a pipe, on the epoll server and on its start.
use libsearpc.Prelude.{
  ℕ, ◌≡◌, ◌↔◌, refl, inl, inr, true, false, none, some, List, [], ◌∷◌, ◌++◌, arith, Bytes, codes, ℤ,
  pos, negsuc, Bool, if◌then◌else◌,
}
use libsearpc.Jansson.Plain.{plain, new_string, dump, array_append}
use libsearpc.Jansson.Plain.Value.{Tree}
use libsearpc.Types.{done}
use libsearpc.Client.Call.{searpc_client_call__int}
use libsearpc.Pipe.Io.{Event, Fd}
use libsearpc.Pipe.Io.Liveness.{Steady}
use libsearpc.Pipe.Frame.{frame}
use libsearpc.Pipe.Handler.{Handler, first_handler, served, handle_round}
use libsearpc.Pipe.Client.{searpc_client_with_named_pipe_transport, Ready, call__int-pipe}
use libsearpc.Pipe.Epoll.{epoll_handler}
use libsearpc.Pipe.Epoll.Laws.{left_as, epoll_handler-Steady}
use libsearpc.Pipe.Epoll.Listener.{
  PollEvent, Accepted, Listener, update, g_free, close, accept_connection, waits, handles,
  listener_step,
}
use libsearpc.Pipe.Epoll.Listener.Invariant.{WellFormed}
use libsearpc.Pipe.Epoll.Listener.Reach.{first_listener, Reachable, start, next, listener_safe}
use libsearpc.Pipe.Setup.{
  PipeServer, PipeClient, server_at, Outcomes, copy_path, searpc_create_named_pipe_client,
  searpc_create_named_pipe_server, searpc_named_pipe_server_start, searpc_named_pipe_client_connect,
}
use libsearpc.Pipe.Setup.Start.{
  bound_address, starts_listener, open_after, leaked, start_succeeds, start_fails,
}
use libsearpc.Pipe.Setup.Connect.{connected_address, connect-start}
use libsearpc.Tests.Setting.{
  objects, svc, f, sig, params, params-AcceptsAll, f_named, registry, server_of, f_found,
}
use libsearpc.Tests.Wire.{
  zeros, length-zeros, bytes_moved, message, reply, request, f_called, seven, length-message,
  length-reply, request_answered, message_read,
}

abbrev pub client_end : Fd
client_end = record { events = bytes_moved 60; input = frame reply; output = [] }

abbrev pub server_end : Fd
server_end = record { events = bytes_moved 60; input = frame message; output = [] }

pub ends-Ready :
    Ready plain objects ℕ zeros
      (server_of (registry seven))
      svc
      request
      reply
      client_end
      server_end
      (first_handler zeros 3)
unfolding new_string dump array_append
ends-Ready = record {
  malloc_size = length-zeros;
  service_json = Tree.string svc;
  service_valid = refl;
  fcall_json = Tree.string request;
  fcall_valid = refl;
  request_loadable = tt;
  not_empty = omega (arith, length-message);
  request_bound = omega (arith, length-message);
  reply_bound = omega (arith, length-reply);
  client_steady = tt;
  peer_steady = tt;
  enough = omega (arith, length-message, length-reply);
  sized = (omega arith, omega arith);
  peer_input = refl;
  client_input = refl;
}

call__int-pipe_example :
    (client' peer' : Fd) × (handler' : Handler ℕ) × (searpc_client_call__int plain objects Fd
        (searpc_client_with_named_pipe_transport plain objects zeros svc)
        (some f)
        params
        client_end
      ≡ (done (pos 7, none), client'))
    × (handle_round plain objects ℕ zeros
          (server_of (registry seven))
          server_end
          (first_handler zeros 3)
        ≡ served peer' handler')
    × (handler'.world ≡ 4)
    × (client'.input ≡ [])
    × (peer'.input ≡ [])
    × (client'.output ≡ client_end.output ++ server_end.input)
    × (peer'.output ≡ server_end.output ++ client_end.input)
call__int-pipe_example =
    call__int-pipe plain objects ℕ zeros (server_of (registry seven)) svc f sig seven
      (Tree.string f) client_end server_end (first_handler zeros 3) (pos 7) 4 (f_found seven)
      f_named params-AcceptsAll tt refl (omega arith) tt ends-Ready

epoll_handler-Steady_example :
    (events' : List Event) × (epoll_handler plain objects ℕ true
        (server_of (registry seven))
        (record server_end { input = frame message ++ (5 ∷ []) })
        3
      ≡ left_as true (record { events = events'; input = 5 ∷ []; output = [] ++ frame reply }) 4)
    × Steady events'
epoll_handler-Steady_example =
    epoll_handler-Steady plain objects ℕ true (server_of (registry seven)) 3
      (record server_end { input = frame message ++ (5 ∷ []) }) message (5 ∷ []) svc request
      f_called tt (omega (arith, length-message, length-reply)) (omega (arith, length-message))
      (omega (arith, length-message)) (omega (arith, length-reply)) refl message_read
      request_answered

-- The listening socket is 3; a connection 7 arrives, whose block is at 4096, and hangs up.
abbrev incoming : PollEvent
incoming = record { ptr = 3; readable = true; hangup = false }

abbrev arrival : Accepted
arrival = record { connfd = 7; at = 4096; added = true }

abbrev hang_up : PollEvent
hang_up = record { ptr = 4096; readable = false; hangup = true }

abbrev one_watched : Listener
one_watched = record first_listener {
  memory = update first_listener.memory 4096 (some 7);
  opened = update first_listener.opened 7 true;
  watched = update first_listener.watched 7 (some 4096);
}

one_watched-Reachable : Reachable 3 (record one_watched { batch = hang_up ∷ [] })
unfolding listener_step accept_connection g_free close
one_watched-Reachable =
    next one_watched (record one_watched { batch = hang_up ∷ [] }) (waits (hang_up ∷ []))
      (next (record first_listener { batch = incoming ∷ [] }) one_watched (handles (arrival ∷ []))
        (next first_listener (record first_listener { batch = incoming ∷ [] })
          (waits (incoming ∷ [])) start (refl, (inl refl, tt, tt)) refl)
        (refl, refl, refl, λ l' e. tt) refl)
      (refl, (inr (7, refl), tt, tt)) refl

listener_safe_example :
    (l' : Listener) × (listener_step 3 (record one_watched { batch = hang_up ∷ [] }) (handles [])
      ≡ done l')
    × WellFormed 3 l'
listener_safe_example =
    listener_safe (record one_watched { batch = hang_up ∷ [] }) (handles []) one_watched-Reachable
      tt

abbrev all_well : Outcomes
all_well = record {
  socket = some 3;
  exists = true;
  unlinked = true;
  bound = true;
  listening = true;
  permitted = true;
  epoll = some 4;
  flags_read = true;
  flags_set = true;
  added = true;
}

abbrev socket_path : Bytes
socket_path = codes "/tmp/rpc.sock"

abbrev epoll_server : PipeServer
epoll_server = record (server_at socket_path false (pos 0)) { use_epoll = true }

start_succeeds_example :
    let r = searpc_named_pipe_server_start all_well epoll_server in
    (r.status ≡ pos 0)
    × (r.server.pipe_fd ≡ pos 3)
    × (bound_address r.calls ≡ some socket_path)
    × (starts_listener r.calls ≡ true)
    × (open_after [] r.calls ≡ (if true then r.server.epoll_fd ∷ pos 3 ∷ [] else pos 3 ∷ []))
start_succeeds_example = start_succeeds all_well epoll_server 3 refl refl

start_fails_example :
    let r = searpc_named_pipe_server_start (record all_well { added = false }) epoll_server in
    (r.status ≡ negsuc 0)
    × (r.server ≡ epoll_server)
    × (starts_listener r.calls ≡ false)
    × (open_after [] r.calls ≡ leaked (record all_well { added = false }) epoll_server)
start_fails_example =
    start_fails (record all_well { added = false }) epoll_server 3 refl (λ e h. ground (arith, h))
      refl

abbrev pipe_client : PipeClient
pipe_client = record { path = socket_path; pipe_fd = pos 0 }

abbrev accepts_all : ℤ → Bytes → Bool
accepts_all fd address = true

connect-start_example :
    let r = searpc_named_pipe_client_connect (pos 9) accepts_all pipe_client in
    (connected_address r.calls
      ≡ bound_address
          (searpc_named_pipe_server_start all_well
            (record (server_at socket_path false (pos 0)) { use_epoll = true })).calls)
    × ((r.status ≡ pos 0) ↔ (accepts_all (pos 9) socket_path ≡ true))
unfolding searpc_create_named_pipe_client searpc_create_named_pipe_server copy_path
connect-start_example =
    connect-start socket_path (server_at socket_path false (pos 0)) pipe_client all_well 3 true
      (pos 9) accepts_all refl refl refl refl
