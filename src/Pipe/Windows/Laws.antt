-- ===== src/Pipe/Windows/Laws.antt =====
-- What the Windows branches of lib/searpc-named-pipe-transport.c do with their handles.
use libsearpc.Prelude.{
  ℕ, suc, ◌≡◌, refl, ◌⊎◌, inl, inr, Bool, true, false, none, some, List, [], ◌∷◌, ◌++◌, map, ◌&&◌,
  not, ℤ, pos, negsuc, Bool-cases, Option-cases, arith, ◌≤◌, length,
}
use libsearpc.Pipe.Setup.{PipeServer, PipeClient}
use libsearpc.Pipe.Listen.{Handed, pooled, threaded, hand_over}
use libsearpc.Pipe.Windows.{
  Attempt, WindowsConnected, Instance, Listened, is_pipe_busy, is_pipe_connected, set_mode,
  searpc_named_pipe_client_connect_windows, listen_round, named_pipe_listen_windows,
}

-- The attempts that the loop repeats: no handle, the pipe is busy, and the wait succeeds.
abbrev AllBusy : List Attempt → Type 0
AllBusy [] = Unit
AllBusy (attempt ∷ attempts) =
    ((attempt.opened ≡ none) × (is_pipe_busy attempt.error ≡ true) × (attempt.waited ≡ true))
    × AllBusy attempts

abbrev ends : Attempt → Bool
ends attempt = elim attempt.opened [
  | some fd ↦ true
  | none ↦ not (is_pipe_busy attempt.error && attempt.waited)
]

-- What the first attempt behind the busy ones makes of a connect.
abbrev pub outcome : Attempt → Bool → PipeClient → WindowsConnected
outcome attempt mode_set client = elim attempt.opened [
  | some fd ↦ set_mode mode_set client fd
  | none ↦ record { status = negsuc 0; client = client; opened = []; closed = [] }
]

connect-AllBusy :
    (busy rest : List Attempt) (last : Attempt) (mode_set : Bool) (client : PipeClient)
    → AllBusy busy
    → ends last ≡ true
    → searpc_named_pipe_client_connect_windows (busy ++ last ∷ rest) mode_set client
      ≡ some (outcome last mode_set client)
unfolding searpc_named_pipe_client_connect_windows
connect-AllBusy [] rest last mode_set client b e = ground (arith, e)
connect-AllBusy (attempt ∷ busy) rest last mode_set client (b, bs) e =
    ground (arith, b.0, b.1, b.2, connect-AllBusy busy rest last mode_set client bs e)

outcome_kept :
    (last : Attempt) (mode_set : Bool) (client : PipeClient)
    → ((fd : ℕ) × (last.opened ≡ some fd)
        × (mode_set ≡ true)
        × (outcome last mode_set client ≡ record {
          status = pos 0;
          client = record client { pipe_fd = pos fd };
          opened = fd ∷ [];
          closed = [];
        }))
      ⊎ (((outcome last mode_set client).status ≡ negsuc 0)
          × ((outcome last mode_set client).client ≡ client)
          × ((outcome last mode_set client).closed ≡ (outcome last mode_set client).opened))
unfolding set_mode
outcome_kept last true client = elim (Option-cases last.opened) [
  | inl e ↦ inr (rw e refl, rw e refl, rw e refl)
  | inr (fd, e) ↦ inl (fd, e, refl, rw e refl)
]
outcome_kept last false client = elim (Option-cases last.opened) [
  | inl e ↦ inr (rw e refl, rw e refl, rw e refl)
  | inr (fd, e) ↦ inr (rw e refl, rw e refl, rw e refl)
]

-- Behind attempts that find the pipe busy and wait, the attempt that ends the loop decides: it gives
-- a handle whose mode can be set, and the client keeps that handle, the only one that was opened; or
-- the result is -1, the client is as it was, and every handle that was opened is closed.
pub client_connect-AllBusy :
    (busy rest : List Attempt) (last : Attempt) (mode_set : Bool) (client : PipeClient)
    → AllBusy busy
    → ends last ≡ true
    → (r : WindowsConnected) × (searpc_named_pipe_client_connect_windows
          (busy ++ last ∷ rest)
          mode_set
          client
        ≡ some r)
      × (((fd : ℕ) × (last.opened ≡ some fd)
            × (mode_set ≡ true)
            × (r ≡ record {
              status = pos 0;
              client = record client { pipe_fd = pos fd };
              opened = fd ∷ [];
              closed = [];
            }))
          ⊎ ((r.status ≡ negsuc 0) × (r.client ≡ client) × (r.closed ≡ r.opened)))
client_connect-AllBusy busy rest last mode_set client b e = (
  outcome last mode_set client,
  connect-AllBusy busy rest last mode_set client b e,
  outcome_kept last mode_set client,
)

-- The handle that was handed over.
abbrev pub handle_of : Handed → ℤ
handle_of (pooled d) = d.connfd
handle_of (threaded d) = d.connfd

handle_of-hand_over :
    (server : PipeServer) (fd : ℤ)
    → handle_of (hand_over server (record { connfd = fd; use_epoll = false })) ≡ fd
unfolding hand_over
handle_of-hand_over server fd = elim (Bool-cases server.thread_pool) [
  | inl e ↦ rw e refl
  | inr e ↦ rw e refl
]

-- Of `n` rounds: every instance that was created is handed to one handler or closed, at most the
-- last one is closed, and a loop that goes on has handed over one instance in each round.
pub record Accounted (n : ℕ) (r : Listened) : Type 0 where
  pub created_once : map pos r.created ≡ map handle_of r.handed ++ map pos r.closed
  pub closed_last : length r.closed ≤ 1
  pub going_on : r.ended ≡ false → (r.closed ≡ []) × (length r.handed ≡ n)

listen_round-Accounted :
    (server : PipeServer) (fd n : ℕ) (rest : Listened)
    → Accounted n rest
    → Accounted (suc n) (listen_round server fd rest)
unfolding listen_round
listen_round-Accounted server fd n rest h = record {
  created_once = rw (handle_of-hand_over server (pos fd), h.created_once) refl;
  closed_last = h.closed_last;
  going_on = λ e. ((h.going_on e).0, omega (arith, (h.going_on e).1));
}

-- On Windows, whatever the system calls return: every instance of the pipe that named_pipe_listen
-- has created is handed to one handler or closed, in the order of their creation, only the last
-- one can be closed, and a loop that goes on has handed over one instance in each round and closed
-- none.
pub listen-Accounted :
    (server : PipeServer) (instances : List Instance)
    → Accounted (length instances) (named_pipe_listen_windows server instances)
unfolding named_pipe_listen_windows
listen-Accounted server [] = record {
  created_once = refl;
  closed_last = omega arith;
  going_on = λ e. (refl, refl);
}
listen-Accounted server (i ∷ is) =
    let h = λ (fd : ℕ). listen_round-Accounted server fd _ _ (listen-Accounted server is) in
    elim (Option-cases i.created) [
      | inl e ↦
          rw e (record {
            created_once = refl;
            closed_last = omega arith;
            going_on = λ f. absurd (cc f);
          })
      | inr (fd, e) ↦ elim (Bool-cases i.connected) [
        | inl c ↦ rw (e, c) (h fd)
        | inr c ↦ elim (Bool-cases (is_pipe_connected i.error)) [
          | inl d ↦ rw (e, c, d) (h fd)
          | inr d ↦
              rw (e, c, d)
                (record {
                  created_once = refl;
                  closed_last = omega arith;
                  going_on = λ f. absurd (cc f);
                })
        ]
      ]
    ]
