-- ===== src/Pipe/Listen.antt =====
-- `named_pipe_listen` of lib/searpc-named-pipe-transport.c without epoll: its accept loop, and the
-- two functions that run a handler in a thread or in a worker of the pool.
use libsearpc.Prelude.{
  ◌≡◌, refl, inl, inr, Bool-cases, Bool, false, List, [], ◌∷◌, map, ℤ, if◌then◌else◌,
}
use libsearpc.Pipe.Setup.{PipeServer}

pub record ServerHandlerData : Type 0 where
  pub connfd : ℤ
  pub use_epoll : Bool

-- g_thread_pool_push or pthread_create. A full pool is only warned about.
pub data Handed : Type 0 where
  pooled threaded : ServerHandlerData → Handed

-- Which of the two handlers runs, on which descriptor.
pub data Handling : Type 0 where
  epoll_handler named_pipe_client_handler : ℤ → Handling

unfoldable pub hand_over : PipeServer → ServerHandlerData → Handed
hand_over server handler_data =
    if server.thread_pool then pooled handler_data else threaded handler_data

-- The loop over what accept returns, which is not tested.
unfoldable pub named_pipe_listen : PipeServer → List ℤ → List Handed
unfolding hand_over
named_pipe_listen server [] = []
named_pipe_listen server (connfd ∷ connfds) =
    hand_over server (record { connfd = connfd; use_epoll = false })
    ∷ named_pipe_listen server connfds

unfoldable pub handle_named_pipe_client_with_thread : ServerHandlerData → Handling
handle_named_pipe_client_with_thread handler_data =
    if handler_data.use_epoll
    then epoll_handler handler_data.connfd
    else named_pipe_client_handler handler_data.connfd

unfoldable pub handle_named_pipe_client_with_threadpool : ServerHandlerData → Handling
handle_named_pipe_client_with_threadpool handler_data =
    if handler_data.use_epoll
    then epoll_handler handler_data.connfd
    else named_pipe_client_handler handler_data.connfd

abbrev pub handling : Handed → Handling
handling (pooled handler_data) = handle_named_pipe_client_with_threadpool handler_data
handling (threaded handler_data) = handle_named_pipe_client_with_thread handler_data

handed :
    (server : PipeServer) (connfd : ℤ) (handeds : List Handed) (rest : List Handling)
    → map handling handeds ≡ rest
    → map handling (hand_over server (record { connfd = connfd; use_epoll = false }) ∷ handeds)
      ≡ named_pipe_client_handler connfd ∷ rest
unfolding hand_over handle_named_pipe_client_with_thread handle_named_pipe_client_with_threadpool
handed server connfd handeds rest e = elim (Bool-cases server.thread_pool) [
  | inl p ↦ rw (p, e) refl
  | inr p ↦ rw (p, e) refl
]

-- With and without a pool, everything that accept returns, a failure included, is handled once by
-- named_pipe_client_handler, in order.
listen-handling :
    (server : PipeServer) (connfds : List ℤ)
    → map handling (named_pipe_listen server connfds) ≡ map named_pipe_client_handler connfds
unfolding named_pipe_listen handle_named_pipe_client_with_thread
    handle_named_pipe_client_with_threadpool
listen-handling server [] = refl
listen-handling server (connfd ∷ connfds) =
    handed server connfd (named_pipe_listen server connfds) (map named_pipe_client_handler connfds)
      (listen-handling server connfds)
