-- ===== src/Pipe/Epoll/Listener/Batch.antt =====
-- epoll_listen of lib/searpc-named-pipe-transport.c: what its steps
-- keep of the events that wait to be handled.
use libsearpc.Prelude.{
  ℕ, ◌%◌, ◌==◌, ◌≡◌, ◌≢◌, ◌⊎◌, inl, inr, true, false, none, some, List, [], ◌∷◌, two32,
}
use libsearpc.Types.{done}
use libsearpc.Pipe.Epoll.Listener.{PollEvent, Accepted, Listener, accept_connection}

-- No event has this union again: epoll_wait reports a descriptor once.
abbrev pub NotAgain : ℕ → List PollEvent → Type 0
NotAgain ptr [] = Unit
NotAgain ptr (event ∷ events) = (event.ptr ≢ ptr) × NotAgain ptr events

-- Each event is the listening socket's or that of a connection that epoll watches.
abbrev pub Reported : ℕ → Listener → List PollEvent → Type 0
Reported pipe_fd l [] = Unit
Reported pipe_fd l (event ∷ events) =
    (((event.ptr % two32 == pipe_fd) ≡ true) ⊎ ((fd : ℕ) × (l.watched fd ≡ some event.ptr)))
    × NotAgain event.ptr events
    × Reported pipe_fd l events

-- What accept and g_new0 return is not in use, and the low half of the address is not the number
-- of the listening socket.
abbrev pub Arrives : ℕ → Listener → List Accepted → Type 0
Arrives pipe_fd l [] = Unit
Arrives pipe_fd l (a ∷ rest) =
    (l.opened a.connfd ≡ false)
    × (l.memory a.at ≡ none)
    × ((a.at % two32 == pipe_fd) ≡ false)
    × ((l' : Listener) → accept_connection l a ≡ done l' → Arrives pipe_fd l' rest)

-- What is watched stays watched.
abbrev pub Keeps : Listener → Listener → Type 0
Keeps l l' = (fd at : ℕ) → l.watched fd ≡ some at → l'.watched fd ≡ some at

pub Reported-Keeps :
    (pipe_fd : ℕ) (l l' : Listener) (events : List PollEvent) (ptr : ℕ)
    → ((fd at : ℕ) → l.watched fd ≡ some at → at ≢ ptr → l'.watched fd ≡ some at)
    → NotAgain ptr events
    → Reported pipe_fd l events
    → Reported pipe_fd l' events
Reported-Keeps pipe_fd l l' [] ptr k n r = tt
Reported-Keeps pipe_fd l l' (event ∷ events) ptr k (d, n) (p, n', r) = (
  elim p [ inl e ↦ inl e | inr (fd, e) ↦ inr (fd, k fd event.ptr e d) ],
  n',
  Reported-Keeps pipe_fd l l' events ptr k n r,
)

pub Reported-same :
    (pipe_fd : ℕ) (l l' : Listener) (events : List PollEvent)
    → Keeps l l'
    → Reported pipe_fd l events
    → Reported pipe_fd l' events
Reported-same pipe_fd l l' [] k r = tt
Reported-same pipe_fd l l' (event ∷ events) k (p, n, r) = (
  elim p [ inl e ↦ inl e | inr (fd, e) ↦ inr (fd, k fd event.ptr e) ],
  n,
  Reported-same pipe_fd l l' events k r,
)
