-- ===== src/Pipe/Epoll/Listener.antt =====
-- `epoll_listen` of lib/searpc-named-pipe-transport.c with the workers it hands connections to. The
-- state is what the threads share: the live ServerHandlerData blocks, the open connections, what
-- epoll watches, which blocks the workers hold, and the events of the last epoll_wait that are
-- not handled yet.
pub mod Invariant
pub mod Batch
pub mod Steps
pub mod Reach
use libsearpc.Prelude.{
  ℕ, ◌%◌, ◌==◌, Bool, true, false, Option, none, some, List, [], ◌∷◌, if◌then◌else◌, two32,
}
use libsearpc.Types.{Run, done, crash, use_after_free, double_close, ◌>>=◌}

abbrev pub update {ℓ} : {A : Type ℓ} → (ℕ → A) → ℕ → A → ℕ → A
update f k v x = if x == k then v else f x

-- struct epoll_event: `ptr` is `data`, the 64-bit union, EPOLLIN, and EPOLLHUP or EPOLLRDHUP.
pub record PollEvent : Type 0 where
  pub ptr : ℕ
  pub readable : Bool
  pub hangup : Bool

-- A connection that accept returns: its descriptor, the address that g_new0 gives, and whether
-- epoll_ctl adds it.
pub record Accepted : Type 0 where
  pub connfd : ℕ
  pub at : ℕ
  pub added : Bool

pub record Listener : Type 0 where
  -- the `connfd` of the live block at an address
  pub memory : ℕ → Option ℕ
  pub opened : ℕ → Bool
  -- the `data.ptr` under which epoll watches a descriptor
  pub watched : ℕ → Option ℕ
  -- the blocks that the workers hold
  pub working : ℕ → Bool
  pub batch : List PollEvent

unfoldable pub g_free : Listener → ℕ → Run Listener
g_free l at = elim (l.memory at) [
  | none ↦ crash use_after_free
  | some connfd ↦ done (record l { memory = update l.memory at none })
]

unfoldable pub close : Listener → ℕ → Run Listener
close l fd =
    if l.opened fd
    then done (record l { opened = update l.opened fd false })
    else crash double_close

-- epoll_ctl (EPOLL_CTL_DEL) and, where it succeeds, EPOLL_CTL_ADD
abbrev pub epoll_del : Listener → ℕ → Listener
epoll_del l fd = record l { watched = update l.watched fd none }

abbrev pub epoll_add : Listener → ℕ → ℕ → Listener
epoll_add l fd at = record l { watched = update l.watched fd (some at) }

-- One round of the accept loop that gets a connection.
unfoldable pub accept_connection : Listener → Accepted → Run Listener
accept_connection l a =
    let opened = record l {
      opened = update l.opened a.connfd true;
      memory = update l.memory a.at (some a.connfd);
    } in
    if a.added
    then done (epoll_add opened a.connfd a.at)
    else close (epoll_del opened a.connfd) a.connfd >>= λ l'. g_free l' a.at

-- The rounds until accept fails.
unfoldable pub accept_all : Listener → List Accepted → Run Listener
unfolding accept_connection
accept_all l [] = done l
accept_all l (a ∷ rest) = accept_connection l a >>= λ l'. accept_all l' rest

-- An event of a connection: a hang-up closes it, anything else hands it to a worker.
unfoldable pub connection_event : Listener → PollEvent → Run Listener
connection_event l event = elim (l.memory event.ptr) [
  | none ↦ crash use_after_free
  | some connfd ↦
      if event.hangup
      then (g_free l event.ptr >>= λ l'. close (epoll_del l' connfd) connfd)
      else done (record (epoll_del l connfd) { working = update l.working event.ptr true })
]

-- One round of the `for` loop over the events. `data.fd` is the low half of the union.
unfoldable pub handle_event : ℕ → Listener → PollEvent → List Accepted → Run Listener
unfolding accept_all connection_event
handle_event pipe_fd l event accepted =
    if event.ptr % two32 == pipe_fd
    then (if event.readable then accept_all l accepted else done l)
    else connection_event l event

-- The end of epoll_handler: the connection is watched again, or it is closed and its block freed.
unfoldable pub worker_done : Listener → ℕ → Bool → Run Listener
worker_done l at again = elim (l.memory at) [
  | none ↦ crash use_after_free
  | some connfd ↦
      let idle = record l { working = update l.working at false } in
      if again then done (epoll_add idle connfd at) else close idle connfd >>= λ l'. g_free l' at
]

-- A step of the process: epoll_wait returns, the listener handles the next event of its batch, or
-- a worker ends.
pub data Action : Type 0 where
  waits : List PollEvent → Action
  handles : List Accepted → Action
  ends : ℕ → Bool → Action

unfoldable pub listener_step : ℕ → Listener → Action → Run Listener
unfolding handle_event worker_done
listener_step pipe_fd l (waits events) = done (record l { batch = events })
listener_step pipe_fd l (handles accepted) = elim l.batch [
  | [] ↦ done l
  | event ∷ rest ↦ handle_event pipe_fd (record l { batch = rest }) event accepted
]
listener_step pipe_fd l (ends at again) = worker_done l at again
