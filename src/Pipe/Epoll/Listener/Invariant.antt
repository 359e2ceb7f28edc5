-- ===== src/Pipe/Epoll/Listener/Invariant.antt =====
-- epoll_listen of lib/searpc-named-pipe-transport.c: who owns the connections, and that no step of
-- the listener or of a worker uses freed memory or closes a descriptor twice.
use libsearpc.Prelude.{
  ◌∙◌, sym, refl, Option-cases, List, ℕ, ◌%◌, ◌==◌, ◌≡◌, ◌⊎◌, inl, inr, true, false, none, some,
  arith, two32, Bool-cases,
}
use libsearpc.Types.{done}
use libsearpc.Pipe.Epoll.Listener.{g_free, close, PollEvent, update, Listener}

-- Each live block has an open connection of its own, which epoll watches under the address of the
-- block or which one worker holds; no address reads as the listening socket.
pub record WellFormed (pipe_fd : ℕ) (l : Listener) : Type 0 where
  pub live_open : (at fd : ℕ) → l.memory at ≡ some fd → l.opened fd ≡ true
  pub one_block : (at at' fd : ℕ) → l.memory at ≡ some fd → l.memory at' ≡ some fd → at ≡ at'
  pub watched_live :
      (fd at : ℕ) → l.watched fd ≡ some at → (l.memory at ≡ some fd) × (l.working at ≡ false)
  pub working_live :
      (at : ℕ) → l.working at ≡ true → (fd : ℕ) × (l.memory at ≡ some fd) × (l.watched fd ≡ none)
  pub owned :
      (fd : ℕ)
      → l.opened fd ≡ true
      → (at : ℕ) × (l.memory at ≡ some fd) × ((l.watched fd ≡ some at) ⊎ (l.working at ≡ true))
  pub pointer : (at fd : ℕ) → l.memory at ≡ some fd → (at % two32 == pipe_fd) ≡ false

same_cases : (x k : ℕ) → (x ≡ k) ⊎ ((x == k) ≡ false)
same_cases x k = elim (Bool-cases (x == k)) [ inl e ↦ inl (ground arith) | inr e ↦ inr e ]

pub same : (k : ℕ) → (k == k) ≡ true
same k = ground arith

module _ {pipe_fd : ℕ} {l : Listener} (h : WellFormed pipe_fd l) where
  pub enter-WellFormed :
      (fd at : ℕ)
      → l.opened fd ≡ false
      → l.memory at ≡ none
      → (at % two32 == pipe_fd) ≡ false
      → WellFormed pipe_fd (record l {
        opened = update l.opened fd true;
        memory = update l.memory at (some fd);
        watched = update l.watched fd (some at);
      })
  enter-WellFormed fd at o m p = record {
    live_open = λ a f e. ground (arith, h.live_open a f);
    one_block = λ a b f e e'. ground (arith, h.one_block a b f, h.live_open a f, h.live_open b f);
    watched_live = λ f a e. ground (arith, h.watched_live f a, h.working_live a);
    working_live = λ a e.
        let (f, m', w') = h.working_live a e in
        (f, ground arith, ground (arith, h.live_open a f m'));
    owned = λ f e. elim (same_cases f fd) [
      | inl s ↦ (at, ground arith, inl (ground arith))
      | inr n ↦
          let (a, m', w) = h.owned f (ground arith) in
          (a, ground arith, elim w [ inl x ↦ inl (ground arith) | inr x ↦ inr x ])
    ];
    pointer = λ a f e. ground (arith, h.pointer a f);
  }

  -- The listener gives a connection that epoll watches to a worker.
  pub hand_over-WellFormed :
      (fd at : ℕ)
      → l.watched fd ≡ some at
      → WellFormed pipe_fd
          (record l { watched = update l.watched fd none; working = update l.working at true })
  hand_over-WellFormed fd at w =
      let (m, i) = h.watched_live fd at w in
      record {
        live_open = h.live_open;
        one_block = h.one_block;
        watched_live = λ f a e. ground (arith, h.watched_live f a, h.one_block a at f);
        working_live = λ a e. elim (same_cases a at) [
          | inl s ↦ (fd, ground arith, ground arith)
          | inr n ↦ let (f, m', w') = h.working_live a (ground arith) in (f, m', ground arith)
        ];
        owned = λ f e.
            let (a, m', w') = h.owned f e in
            (
              a,
              m',
              elim (same_cases f fd) [
                | inl s ↦ inr (ground (arith, h.one_block a at f))
                | inr n ↦ elim w' [ inl x ↦ inl (ground arith) | inr x ↦ inr (ground arith) ]
              ],
            );
        pointer = h.pointer;
      }

  -- A worker has epoll watch its connection again.
  pub give_back-WellFormed :
      (fd at : ℕ)
      → l.memory at ≡ some fd
      → l.working at ≡ true
      → WellFormed pipe_fd (record l {
        working = update l.working at false;
        watched = update l.watched fd (some at);
      })
  give_back-WellFormed fd at m w = record {
    live_open = h.live_open;
    one_block = h.one_block;
    watched_live = λ f a e. ground (arith, h.watched_live f a);
    working_live = λ a e.
        let (f, m', w') = h.working_live a (ground arith) in
        (f, m', ground (arith, h.one_block a at f));
    owned = λ f e.
        let (a, m', w') = h.owned f e in
        (
          a,
          m',
          elim (same_cases f fd) [
            | inl s ↦ inl (ground (arith, h.one_block a at f))
            | inr n ↦ elim w' [ inl x ↦ inl (ground arith) | inr x ↦ inr (ground arith) ]
          ],
        );
    pointer = h.pointer;
  }

  -- A connection is closed and its block freed.
  pub release-WellFormed :
      (fd at : ℕ)
      → l.memory at ≡ some fd
      → WellFormed pipe_fd (record l {
        memory = update l.memory at none;
        opened = update l.opened fd false;
        watched = update l.watched fd none;
        working = update l.working at false;
      })
  release-WellFormed fd at m = record {
    live_open = λ a f e. ground (arith, h.live_open a f, h.one_block a at f);
    one_block = λ a b f e e'. ground (arith, h.one_block a b f);
    watched_live = λ f a e. ground (arith, h.watched_live f a);
    working_live =
        λ a e. let (f, m', w') = h.working_live a (ground arith) in (f, ground arith, ground arith);
    owned = λ f e.
        let (a, m', w') = h.owned f (ground arith) in
        (a, ground arith, elim w' [ inl x ↦ inl (ground arith) | inr x ↦ inr (ground arith) ]);
    pointer = λ a f e. ground (arith, h.pointer a f);
  }

-- The maps of two states agree at every place.
pub record Same (l l' : Listener) : Type 0 where
  pub memory : (x : ℕ) → l'.memory x ≡ l.memory x
  pub opened : (x : ℕ) → l'.opened x ≡ l.opened x
  pub watched : (x : ℕ) → l'.watched x ≡ l.watched x
  pub working : (x : ℕ) → l'.working x ≡ l.working x

pub Same-WellFormed :
    {pipe_fd : ℕ} {l : Listener} (l' : Listener)
    → Same l l'
    → WellFormed pipe_fd l
    → WellFormed pipe_fd l'
Same-WellFormed l' s h = record {
  live_open = λ a f e. ground (arith, s.memory a, s.opened f, h.live_open a f);
  one_block = λ a b f e e'. ground (arith, s.memory a, s.memory b, h.one_block a b f);
  watched_live = λ f a e. ground (arith, s.watched f, s.memory a, s.working a, h.watched_live f a);
  working_live = λ a e.
      let (f, m, w) = h.working_live a (rw (sym (s.working a)) e) in
      (f, s.memory a ∙ m, s.watched f ∙ w);
  owned = λ f e.
      let (a, m, w) = h.owned f (rw (sym (s.opened f)) e) in
      (a, s.memory a ∙ m, elim w [ inl x ↦ inl (s.watched f ∙ x) | inr x ↦ inr (s.working a ∙ x) ]);
  pointer = λ a f e. ground (arith, s.memory a, h.pointer a f);
}

pub closed_unwatched :
    {pipe_fd : ℕ} {l : Listener} (fd : ℕ)
    → WellFormed pipe_fd l
    → l.opened fd ≡ false
    → l.watched fd ≡ none
closed_unwatched {l} fd h o = elim (Option-cases (l.watched fd)) [
  | inl e ↦ e
  | inr (at, e) ↦
      let (m, w) = h.watched_live fd at e in absurd (ground (arith, h.live_open at fd m))
]

pub close_open :
    (l : Listener) (fd : ℕ)
    → l.opened fd ≡ true
    → close l fd ≡ done (record l { opened = update l.opened fd false })
unfolding close
close_open l fd o = rw o refl

pub g_free_live :
    (l : Listener) (at fd : ℕ)
    → l.memory at ≡ some fd
    → g_free l at ≡ done (record l { memory = update l.memory at none })
unfolding g_free
g_free_live l at fd m = ground arith

-- The invariant does not depend on the batch.
pub batch-WellFormed :
    {pipe_fd : ℕ} {l : Listener} (events : List PollEvent)
    → WellFormed pipe_fd l
    → WellFormed pipe_fd (record l { batch = events })
batch-WellFormed {l} events =
    Same-WellFormed (record l { batch = events })
      (record { memory = λ x. refl; opened = λ x. refl; watched = λ x. refl; working = λ x. refl })
