-- ===== src/Pipe/Epoll/Listener/Steps.antt =====
-- epoll_listen of lib/searpc-named-pipe-transport.c: its steps keep the owners of the
-- connections.
use libsearpc.Prelude.{
  ℕ, ◌%◌, ◌==◌, ◌≡◌, ◌≢◌, refl, ◌∙◌, inl, inr, Bool, true, false, none, some, List, [], ◌∷◌, arith,
  two32, Bool-cases,
}
use libsearpc.Types.{done}
use libsearpc.Pipe.Epoll.Listener.{
  update, PollEvent, Accepted, Listener, accept_connection, accept_all, connection_event,
  worker_done,
}
use libsearpc.Pipe.Epoll.Listener.Invariant.{
  WellFormed, Same-WellFormed, enter-WellFormed, hand_over-WellFormed, give_back-WellFormed,
  release-WellFormed, same, closed_unwatched, close_open, g_free_live,
}
use libsearpc.Pipe.Epoll.Listener.Batch.{Arrives, Keeps}

module _ {pipe_fd : ℕ} where
  accept_connection-WellFormed :
      (l : Listener) (a : Accepted)
      → WellFormed pipe_fd l
      → l.opened a.connfd ≡ false
      → l.memory a.at ≡ none
      → (a.at % two32 == pipe_fd) ≡ false
      → (l' : Listener) × (accept_connection l a ≡ done l')
        × WellFormed pipe_fd l'
        × Keeps l l'
        × (l'.batch ≡ l.batch)
  unfolding accept_connection
  accept_connection-WellFormed l a h o m p = elim (Bool-cases a.added) [
    | inl e ↦ (
      record l {
        opened = update l.opened a.connfd true;
        memory = update l.memory a.at (some a.connfd);
        watched = update l.watched a.connfd (some a.at);
      },
      rw e refl,
      enter-WellFormed h a.connfd a.at o m p,
      λ f x w. ground (arith, h.watched_live f x, h.live_open x f),
      refl,
    )
    | inr e ↦
        let back : Listener = record l {
          opened = update (update l.opened a.connfd true) a.connfd false;
          memory = update (update l.memory a.at (some a.connfd)) a.at none;
          watched = update l.watched a.connfd none;
        } in
        (
          back,
          rw
              (
                e,
                close_open
                    (record l {
                      opened = update l.opened a.connfd true;
                      memory = update l.memory a.at (some a.connfd);
                      watched = update l.watched a.connfd none;
                    })
                    a.connfd (rw (same a.connfd) refl),
                g_free_live
                    (record l {
                      opened = update (update l.opened a.connfd true) a.connfd false;
                      memory = update l.memory a.at (some a.connfd);
                      watched = update l.watched a.connfd none;
                    })
                    a.at a.connfd (rw (same a.at) refl),
              )
              refl,
          Same-WellFormed back
              (record {
                memory = λ x. ground arith;
                opened = λ x. ground arith;
                watched = λ x. ground (arith, closed_unwatched a.connfd h o);
                working = λ x. refl;
              })
              h,
          λ f x w. ground (arith, h.watched_live f x, h.live_open x f),
          refl,
        )
  ]

  pub accept_all-WellFormed :
      (l : Listener) (accepted : List Accepted)
      → WellFormed pipe_fd l
      → Arrives pipe_fd l accepted
      → (l' : Listener) × (accept_all l accepted ≡ done l')
        × WellFormed pipe_fd l'
        × Keeps l l'
        × (l'.batch ≡ l.batch)
  unfolding accept_all
  accept_all-WellFormed l [] h a = (l, refl, h, λ f x w. w, refl)
  accept_all-WellFormed l (a ∷ rest) h (o, m, p, n) =
      let (l1, e1, h1, k1, b1) = accept_connection-WellFormed l a h o m p in
      let (l2, e2, h2, k2, b2) = accept_all-WellFormed l1 rest h1 (n l1 e1) in
      (l2, rw e1 e2, h2, λ f x w. k2 f x (k1 f x w), b2 ∙ b1)

  pub connection_event-WellFormed :
      (l : Listener) (event : PollEvent) (fd : ℕ)
      → WellFormed pipe_fd l
      → l.watched fd ≡ some event.ptr
      → (l' : Listener) × (connection_event l event ≡ done l')
        × WellFormed pipe_fd l'
        × ((f at : ℕ) → l.watched f ≡ some at → at ≢ event.ptr → l'.watched f ≡ some at)
        × (l'.batch ≡ l.batch)
  unfolding connection_event
  connection_event-WellFormed l event fd h w =
      let (m, i) = h.watched_live fd event.ptr w in
      elim (Bool-cases event.hangup) [
        | inl e ↦
            let gone : Listener = record l {
              memory = update l.memory event.ptr none;
              opened = update l.opened fd false;
              watched = update l.watched fd none;
            } in
            (
              gone,
              rw
                  (
                    connection_event,
                    m,
                    e,
                    g_free_live l event.ptr fd m,
                    close_open
                        (record l {
                          memory = update l.memory event.ptr none;
                          watched = update l.watched fd none;
                        })
                        fd (h.live_open event.ptr fd m),
                  )
                  refl,
              Same-WellFormed gone
                  (record {
                    memory = λ x. refl;
                    opened = λ x. refl;
                    watched = λ x. refl;
                    working = λ x. ground arith;
                  })
                  (release-WellFormed h fd event.ptr m),
              λ f at v n. ground arith,
              refl,
            )
        | inr e ↦ (
          record l {
            watched = update l.watched fd none;
            working = update l.working event.ptr true;
          },
          rw (connection_event, m, e) refl,
          hand_over-WellFormed h fd event.ptr w,
          λ f at v n. ground arith,
          refl,
        )
      ]

  pub worker_done-WellFormed :
      (l : Listener) (at : ℕ) (again : Bool)
      → WellFormed pipe_fd l
      → l.working at ≡ true
      → (l' : Listener) × (worker_done l at again ≡ done l')
        × WellFormed pipe_fd l'
        × Keeps l l'
        × (l'.batch ≡ l.batch)
  unfolding worker_done
  worker_done-WellFormed l at true h w =
      let (fd, m, u) = h.working_live at w in
      (
        record l { working = update l.working at false; watched = update l.watched fd (some at) },
        rw (worker_done, m) refl,
        give_back-WellFormed h fd at m w,
        λ f x v. ground arith,
        refl,
      )
  worker_done-WellFormed l at false h w =
      let (fd, m, u) = h.working_live at w in
      let gone : Listener = record l {
        memory = update l.memory at none;
        opened = update l.opened fd false;
        working = update l.working at false;
      } in
      (
        gone,
        rw
            (
              worker_done,
              m,
              close_open (record l { working = update l.working at false }) fd
                  (h.live_open at fd m),
              g_free_live
                  (record l {
                    working = update l.working at false;
                    opened = update l.opened fd false;
                  })
                  at fd m,
            )
            refl,
        Same-WellFormed gone
            (record {
              memory = λ x. refl;
              opened = λ x. refl;
              watched = λ x. ground arith;
              working = λ x. refl;
            })
            (release-WellFormed h fd at m),
        λ f x v. v,
        refl,
      )
