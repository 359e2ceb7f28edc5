-- ===== src/Pipe/Epoll/Listener/Reach.antt =====
-- epoll_listen of lib/searpc-named-pipe-transport.c: the states that its threads can reach, with
-- what the system and the allocator promise.
use libsearpc.Prelude.{
  ℕ, ◌%◌, ◌==◌, ◌≡◌, refl, ◌∙◌, inl, inr, true, false, none, List, [], ◌∷◌, arith, two32,
  Bool-cases, drop,
}
use libsearpc.Types.{done}
use libsearpc.Pipe.Epoll.Listener.{
  PollEvent, Accepted, Listener, handle_event, Action, waits, handles, ends, listener_step,
}
use libsearpc.Pipe.Epoll.Listener.Invariant.{WellFormed, batch-WellFormed}
use libsearpc.Pipe.Epoll.Listener.Batch.{Reported, Arrives, Reported-Keeps, Reported-same}
use libsearpc.Pipe.Epoll.Listener.Steps.{
  accept_all-WellFormed, connection_event-WellFormed, worker_done-WellFormed,
}

abbrev pub Possible : ℕ → Listener → Action → Type 0
Possible pipe_fd l (waits events) = (l.batch ≡ []) × Reported pipe_fd l events
Possible pipe_fd l (handles accepted) =
    Arrives pipe_fd (record l { batch = drop 1 l.batch }) accepted
Possible pipe_fd l (ends at again) = l.working at ≡ true

-- Before the first connection.
abbrev pub first_listener : Listener
first_listener = record {
  memory = λ at. none;
  opened = λ fd. false;
  watched = λ fd. none;
  working = λ at. false;
  batch = [];
}

pub data Reachable (pipe_fd : ℕ) : Listener → Type 0 where
  start : Reachable pipe_fd first_listener
  next :
      (l l' : Listener) (action : Action)
      → Reachable pipe_fd l
      → Possible pipe_fd l action
      → listener_step pipe_fd l action ≡ done l'
      → Reachable pipe_fd l'

-- The invariant with the batch: what is left of it is still reported.
abbrev pub Inv : ℕ → Listener → Type 0
Inv pipe_fd l = WellFormed pipe_fd l × Reported pipe_fd l l.batch

handles-event :
    (pipe_fd : ℕ) (l : Listener) (accepted : List Accepted) (event : PollEvent)
    (rest : List PollEvent)
    → l.batch ≡ event ∷ rest
    → listener_step pipe_fd l (handles accepted)
      ≡ handle_event pipe_fd (record l { batch = rest }) event accepted
unfolding listener_step
handles-event pipe_fd l accepted event rest b = ground arith

module _ {pipe_fd : ℕ} where
  handle_event-Inv :
      (l : Listener) (event : PollEvent) (rest : List PollEvent) (accepted : List Accepted)
      → WellFormed pipe_fd l
      → Reported pipe_fd l (event ∷ rest)
      → Arrives pipe_fd l accepted
      → l.batch ≡ rest
      → (l' : Listener) × (handle_event pipe_fd l event accepted ≡ done l') × Inv pipe_fd l'
  unfolding handle_event
  handle_event-Inv l event rest accepted h (p, n, r) a b =
      elim (Bool-cases (event.ptr % two32 == pipe_fd)) [
        | inl e ↦ elim (Bool-cases event.readable) [
          | inl f ↦
              let (l', e', h', k, b') = accept_all-WellFormed l accepted h a in
              (l', rw (e, f) e', (h', rw (b' ∙ b) (Reported-same pipe_fd l l' rest k r)))
          | inr f ↦ (l, rw (e, f) refl, (h, rw b r))
        ]
        | inr e ↦ elim p [
          | inl c ↦ absurd (ground (arith, c, e))
          | inr (fd, w) ↦
              let (l', e', h', k, b') = connection_event-WellFormed l event fd h w in
              (l', rw e e', (h', rw (b' ∙ b) (Reported-Keeps pipe_fd l l' rest event.ptr k n r)))
        ]
      ]

  handles-Inv :
      (l : Listener) (accepted : List Accepted) (batch : List PollEvent)
      → WellFormed pipe_fd l
      → Reported pipe_fd l batch
      → l.batch ≡ batch
      → Arrives pipe_fd (record l { batch = drop 1 batch }) accepted
      → (l' : Listener) × (listener_step pipe_fd l (handles accepted) ≡ done l') × Inv pipe_fd l'
  unfolding listener_step
  handles-Inv l accepted [] h r b a = (l, ground arith, (h, rw b tt))
  handles-Inv l accepted (event ∷ rest) h r b a =
      let l1 : Listener = record l { batch = rest } in
      let (l', e', i) =
        handle_event-Inv l1 event rest accepted (batch-WellFormed rest h)
          (Reported-same pipe_fd l l1 (event ∷ rest) (λ f x w. w) r) a refl in
      (l', handles-event pipe_fd l accepted event rest b ∙ e', i)

  pub listener_step-Inv :
      (l : Listener) (action : Action)
      → Inv pipe_fd l
      → Possible pipe_fd l action
      → (l' : Listener) × (listener_step pipe_fd l action ≡ done l') × Inv pipe_fd l'
  unfolding listener_step
  listener_step-Inv l (waits events) (h, r) (b, q) =
      let l1 : Listener = record l { batch = events } in
      (l1, refl, (batch-WellFormed events h, Reported-same pipe_fd l l1 events (λ f x w. w) q))
  listener_step-Inv l (handles accepted) (h, r) a = handles-Inv l accepted l.batch h r refl a
  listener_step-Inv l (ends at again) (h, r) w =
      let (l', e', h', k, b') = worker_done-WellFormed l at again h w in
      (l', e', (h', rw b' (Reported-same pipe_fd l l' l.batch k r)))

  start-Inv : Inv pipe_fd first_listener
  start-Inv = (
    record {
      live_open = λ a f e. cc e;
      one_block = λ a b f e e'. cc e;
      watched_live = λ f a e. cc e;
      working_live = λ a e. cc e;
      owned = λ f e. cc e;
      pointer = λ a f e. cc e;
    },
    tt,
  )

  pub Reachable-Inv : {l : Listener} → Reachable pipe_fd l → Inv pipe_fd l
  Reachable-Inv start = start-Inv
  Reachable-Inv (next l l' action r p e) =
      let (l2, e2, i) = listener_step-Inv l action (Reachable-Inv r) p in
      let same_state : l' ≡ l2 = cc (e, e2) in rw same_state i

  -- In every state that epoll_listen and its workers reach, where epoll_wait reports each
  -- descriptor once and only the listening socket or watched connections, accept and malloc return
  -- what is not in use, and no block's address reads as the listening socket: each possible step
  -- ends without a use of freed memory or a second close, in a state where each open connection
  -- has one live block and is either watched by epoll or held by one worker.
  pub listener_safe :
      (l : Listener) (action : Action)
      → Reachable pipe_fd l
      → Possible pipe_fd l action
      → (l' : Listener) × (listener_step pipe_fd l action ≡ done l') × WellFormed pipe_fd l'
  listener_safe l action r p =
      let (l', e, (h, r')) = listener_step-Inv l action (Reachable-Inv r) p in (l', e, h)
