-- ===== src/Pipe/Setup/Start.antt =====
-- searpc_named_pipe_server_start of lib/searpc-named-pipe-transport.c: when it succeeds, which
-- descriptors it leaves open, and the address that it binds.
use libsearpc.Prelude.{
  int_equal, ap, Option-cases, zero, suc, ℕ, ◌≡◌, inl, inr, Bool, true, false, not, Option, none,
  some, List, [], ◌∷◌, if◌then◌else◌, Bytes, length, take, ltb, arith, ℤ, pos, negsuc, ◌&&◌, ◌||◌,
  ◌==◌, Bool-cases,
}
use libsearpc.Pipe.Io.Liveness.{take_nil}
use libsearpc.Pipe.Setup.{
  Syscall, socket, close, listener_thread, bind, epoll_create, sun_path_max, PipeServer, Outcomes,
  set_nonblocking, start_epoll, start_bound, start_socket, searpc_named_pipe_server_start,
}

abbrev pub without : ℤ → List ℤ → List ℤ
without fd [] = []
without fd (x ∷ xs) = let rest = without fd xs in if int_equal x fd then rest else x ∷ rest

-- The descriptors that are open after the calls, the last one first.
abbrev pub open_after : List ℤ → List Syscall → List ℤ
open_after fds [] = fds
open_after fds (socket fd ∷ calls) = open_after (fd ∷ fds) calls
open_after fds (epoll_create fd ∷ calls) = open_after (fd ∷ fds) calls
open_after fds (close fd ∷ calls) = open_after (without fd fds) calls
open_after fds (call ∷ calls) = open_after fds calls

-- The address that the calls bind, and whether they start the listener.
abbrev pub bound_address : List Syscall → Option Bytes
bound_address [] = none
bound_address (bind fd address ∷ calls) = some address
bound_address (call ∷ calls) = bound_address calls

abbrev pub starts_listener : List Syscall → Bool
starts_listener [] = false
starts_listener (listener_thread fd ∷ calls) = true
starts_listener (call ∷ calls) = starts_listener calls

-- What a start needs up to listening: a path that fits, no old file or one that can be removed, and
-- system calls that succeed.
abbrev pub can_listen : Outcomes → PipeServer → Bool
can_listen os server =
    not (ltb sun_path_max (length server.path))
    && ((not os.exists || os.unlinked) && (os.bound && (os.listening && os.permitted)))

-- And what epoll needs once it has an instance.
abbrev pub can_poll : Outcomes → Bool
can_poll os = os.flags_read && (os.flags_set && os.added)

-- The epoll instance, where the server uses one and epoll_create1 gives it.
abbrev pub epoll_instance : Outcomes → PipeServer → Option ℕ
epoll_instance os server = if server.use_epoll then os.epoll else none

abbrev pub can_start : Outcomes → PipeServer → Bool
can_start os server =
    can_listen os server
    && (not server.use_epoll
        || elim (epoll_instance os server) [ none ↦ false | some fd ↦ can_poll os ])

-- A new descriptor is not one that is open.
abbrev pub Fresh : Outcomes → ℕ → Type 0
Fresh os fd = (e : ℕ) → os.epoll ≡ some e → (e == fd) ≡ false

-- The epoll instance that a start which fails after creating it does not close.
abbrev pub leaked : Outcomes → PipeServer → List ℤ
leaked os server =
    if can_listen os server
    then elim (epoll_instance os server) [ none ↦ [] | some e ↦ pos e ∷ [] ]
    else []

pub short : (n : ℕ) (xs : Bytes) → ltb n (length xs) ≡ false → take n xs ≡ xs
short n [] h = take_nil n
short zero (x ∷ xs) h = absurd (ground (arith, h))
short (suc n) (x ∷ xs) h = ap (λ (t : Bytes). x ∷ t) (short n xs (ground (arith, h)))

same : (n : ℕ) → (n == n) ≡ true
same n = ground arith

-- Where socket gives a descriptor and nothing is in the way (the path has at most 107 bytes, an
-- old socket file can be removed, and the system calls succeed), searpc_named_pipe_server_start
-- returns 0, has bound the server's whole path, has started the listener, keeps the descriptor in
-- the server, and leaves open just it and, with epoll, the epoll instance that the server keeps.
pub start_succeeds :
    (os : Outcomes) (server : PipeServer) (fd : ℕ)
    → os.socket ≡ some fd
    → can_start os server ≡ true
    → let r = searpc_named_pipe_server_start os server in
      (r.status ≡ pos 0)
      × (r.server.pipe_fd ≡ pos fd)
      × (bound_address r.calls ≡ some server.path)
      × (starts_listener r.calls ≡ true)
      × (open_after [] r.calls
          ≡ (if server.use_epoll then r.server.epoll_fd ∷ pos fd ∷ [] else pos fd ∷ []))
unfolding searpc_named_pipe_server_start start_socket start_bound start_epoll set_nonblocking
start_succeeds os server fd s c = (
  ground arith,
  ground arith,
  (let l : ltb sun_path_max (length server.path) ≡ false = ground arith in
      let t = short sun_path_max server.path l in
      elim (Bool-cases os.exists) [ inl e ↦ ground (arith, t, e) | inr e ↦ ground (arith, t, e) ]),
  ground arith,
  elim (Bool-cases os.exists) [
    | inl e ↦ elim (Bool-cases server.use_epoll) [ inl u ↦ ground arith | inr u ↦ ground arith ]
    | inr e ↦ elim (Bool-cases server.use_epoll) [ inl u ↦ ground arith | inr u ↦ ground arith ]
  ],
)

-- Where socket gives a descriptor and the epoll instance, if any, is another one, a
-- searpc_named_pipe_server_start that cannot start (the path is longer than 107 bytes, an old
-- socket file cannot be removed, or a system call fails) returns -1, leaves the server's fields as
-- they were, starts no listener, and leaves open nothing but the epoll instance, where it created
-- one.
pub start_fails :
    (os : Outcomes) (server : PipeServer) (fd : ℕ)
    → os.socket ≡ some fd
    → Fresh os fd
    → can_start os server ≡ false
    → let r = searpc_named_pipe_server_start os server in
      (r.status ≡ negsuc 0)
      × (r.server ≡ server)
      × (starts_listener r.calls ≡ false)
      × (open_after [] r.calls ≡ leaked os server)
unfolding searpc_named_pipe_server_start start_socket start_bound start_epoll set_nonblocking
start_fails os server fd s f c = (
  ground arith,
  ground arith,
  ground arith,
  elim (Option-cases os.epoll) [
    | inl e ↦ ground (arith, e)
    | inr (x, e) ↦ let n : (x == fd) ≡ false = f x e in ground (arith, same fd, e, n)
  ],
)
