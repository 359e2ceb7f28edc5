-- ===== src/Pipe/Io/Liveness.antt =====
-- pipe_write_n and pipe_read_n of lib/searpc-named-pipe-transport.c where the system calls go on
-- moving bytes: no call fails or finds the end.
use libsearpc.Prelude.{
  ℕ, zero, suc, ◌+◌, ◌-◌, ◌≤◌, ◌≡◌, refl, min, true, some, List, [], ◌∷◌, ◌++◌, append_assoc,
  append-nil, arith, Bytes, length, take, drop, length-drop, take-append-drop,
}
use libsearpc.Pipe.Io.{
  Event, moves, interrupted, fails, moves_none, Fd, returned, amount, write_loop, pipe_write_n,
  read_loop, pipe_read_n,
}

-- No call fails or finds the connection closed.
abbrev pub Steady : List Event → Type 0
Steady [] = Unit
Steady (moves k ∷ events) = Steady events
Steady (interrupted ∷ events) = Steady events
Steady (fails ∷ events) = ⊥
Steady (moves_none ∷ events) = ⊥

-- The number of calls that move bytes.
abbrev pub moving : List Event → ℕ
moving [] = 0
moving (moves k ∷ events) = suc (moving events)
moving (e ∷ events) = moving events

pub take_nil {ℓ} : {A : Type ℓ} (n : ℕ) → take {A = A} n [] ≡ []
take_nil zero = refl
take_nil (suc n) = refl

drop_nil {ℓ} : {A : Type ℓ} (n : ℕ) → drop {A = A} n [] ≡ []
drop_nil zero = refl
drop_nil (suc n) = refl

take-add {ℓ} :
    {A : Type ℓ} (m n : ℕ) (xs : List A) → m ≤ n → take m xs ++ take (n - m) (drop m xs) ≡ take n xs
take-add zero n xs h = let e : n - 0 ≡ n = omega arith in rw e refl
take-add (suc m) zero xs h = absurd (omega arith)
take-add (suc m) (suc n) [] h = take_nil (suc n - suc m)
take-add (suc m) (suc n) (x ∷ xs) h =
    let e : suc n - suc m ≡ n - m = omega arith in rw (e, take-add m n xs (omega arith)) refl

drop-add {ℓ} : {A : Type ℓ} (m n : ℕ) (xs : List A) → m ≤ n → drop (n - m) (drop m xs) ≡ drop n xs
drop-add zero n xs h = let e : n - 0 ≡ n = omega arith in rw e refl
drop-add (suc m) zero xs h = absurd (omega arith)
drop-add (suc m) (suc n) [] h = drop_nil (suc n - suc m)
drop-add (suc m) (suc n) (x ∷ xs) h =
    let e : suc n - suc m ≡ n - m = omega arith in rw (e, drop-add m n xs (omega arith)) refl

write_loop-Steady :
    (events : List Event) (input output left : Bytes)
    → Steady events
    → length left ≤ moving events
    → (events' : List Event) × (write_loop events input output left
        ≡ returned true (record { events = events'; input = input; output = output ++ left }))
      × Steady events'
      × (moving events ≤ moving events' + length left)
unfolding write_loop
write_loop-Steady events input output [] s m = (events, rw (append-nil output) refl, s, omega arith)
write_loop-Steady [] input output (b ∷ left) s m = absurd (omega arith)
write_loop-Steady (moves k ∷ events) input output (b ∷ left) s m =
    let n = amount k (length (b ∷ left)) in
    let (events', e, s', m') =
      write_loop-Steady events input (output ++ take n (b ∷ left)) (drop n (b ∷ left)) s
        (omega (arith, length-drop n (b ∷ left))) in
    (
      events',
      rw
          (
            e,
            append_assoc output (take n (b ∷ left)) (drop n (b ∷ left)),
            take-append-drop n (b ∷ left),
          )
          refl,
      s',
      omega (arith, m', length-drop n (b ∷ left)),
    )
write_loop-Steady (interrupted ∷ events) input output (b ∷ left) s m =
    write_loop-Steady events input output (b ∷ left) s m
write_loop-Steady (fails ∷ events) input output (b ∷ left) s m = absurd s
write_loop-Steady (moves_none ∷ events) input output (b ∷ left) s m = absurd s

read_loop-Steady :
    (events : List Event) (input output got : Bytes) (nleft : ℕ)
    → Steady events
    → nleft ≤ moving events
    → nleft ≤ length input
    → (events' : List Event) × (read_loop events input output got nleft
        ≡ returned
            (some (got ++ take nleft input))
            (record { events = events'; input = drop nleft input; output = output }))
      × Steady events'
      × (moving events ≤ moving events' + nleft)
unfolding read_loop
read_loop-Steady events input output got zero s m l =
    (events, rw (append-nil got) refl, s, omega arith)
read_loop-Steady [] input output got (suc nleft) s m l = absurd (omega arith)
read_loop-Steady (moves k ∷ events) [] output got (suc nleft) s m l = absurd (omega arith)
read_loop-Steady (moves k ∷ events) (b ∷ input) output got (suc nleft) s m l =
    let n = amount k (min (suc nleft) (length (b ∷ input))) in
    let (events', e, s', m') =
      read_loop-Steady events (drop n (b ∷ input)) output (got ++ take n (b ∷ input))
        (suc nleft - n) s (omega arith) (omega (arith, length-drop n (b ∷ input))) in
    (
      events',
      rw
          (
            e,
            append_assoc got (take n (b ∷ input)) (take (suc nleft - n) (drop n (b ∷ input))),
            take-add n (suc nleft) (b ∷ input) (omega arith),
            drop-add n (suc nleft) (b ∷ input) (omega arith),
          )
          refl,
      s',
      omega (arith, m'),
    )
read_loop-Steady (interrupted ∷ events) input output got (suc nleft) s m l =
    read_loop-Steady events input output got (suc nleft) s m l
read_loop-Steady (fails ∷ events) input output got (suc nleft) s m l = absurd s
read_loop-Steady (moves_none ∷ events) input output got (suc nleft) s m l = absurd s

-- Where no write fails and at least as many of them move bytes as there are bytes, pipe_write_n
-- succeeds with all the bytes sent after what was sent before, and has used at most that many of
-- the writes that move bytes.
pub pipe_write_n-Steady :
    (fd : Fd) (bytes : Bytes)
    → Steady fd.events
    → length bytes ≤ moving fd.events
    → (events' : List Event) × (pipe_write_n fd bytes
        ≡ returned true (record fd { events = events'; output = fd.output ++ bytes }))
      × Steady events'
      × (moving fd.events ≤ moving events' + length bytes)
unfolding pipe_write_n
pipe_write_n-Steady fd bytes s m = write_loop-Steady fd.events fd.input fd.output bytes s m

-- Where no read fails or finds the end, at least n of them move bytes and at least n bytes arrive,
-- pipe_read_n returns with exactly the next n bytes, leaves the others, and has used at most n of
-- the reads that move bytes.
pub pipe_read_n-Steady :
    (fd : Fd) (n : ℕ)
    → Steady fd.events
    → n ≤ moving fd.events
    → n ≤ length fd.input
    → (events' : List Event) × (pipe_read_n fd n
        ≡ returned
            (some (take n fd.input))
            (record fd { events = events'; input = drop n fd.input }))
      × Steady events'
      × (moving fd.events ≤ moving events' + n)
unfolding pipe_read_n
pipe_read_n-Steady fd n s m l = read_loop-Steady fd.events fd.input fd.output [] n s m l
