-- ===== src/Pipe/Io/Laws.antt =====
-- pipe_write_n and pipe_read_n of lib/searpc-named-pipe-transport.c: what they leave behind when
-- they return.
use libsearpc.Prelude.{
  ℕ, zero, suc, ◌+◌, ◌-◌, ◌≤◌, ◌≡◌, refl, ◌∙◌, min, true, some, List, [], ◌∷◌, ◌++◌, append_assoc,
  append-nil, arith, Bytes, length, take, drop, take-append-drop, length-take, length-append,
}
use libsearpc.Pipe.Io.{
  Event, moves, interrupted, fails, moves_none, Fd, returned, amount, write_loop, pipe_write_n,
  read_loop, pipe_read_n,
}

split_at : (n : ℕ) (output left : Bytes) → (output ++ take n left) ++ drop n left ≡ output ++ left
split_at n output left =
    rw (append_assoc output (take n left) (drop n left), take-append-drop n left) refl

-- A write that succeeds has sent exactly its bytes, in order, and has read nothing.
write_loop_lem :
    (events : List Event) (input output left : Bytes) {fd' : Fd}
    → write_loop events input output left ≡ returned true fd'
    → (fd'.output ≡ output ++ left) × (fd'.input ≡ input)
unfolding write_loop
write_loop_lem events input output [] h = ground (arith, append-nil output)
write_loop_lem [] input output (b ∷ left) h = cc
write_loop_lem (moves k ∷ events) input output (b ∷ left) h =
    let n = amount k (length (b ∷ left)) in
    let ih = write_loop_lem events input (output ++ take n (b ∷ left)) (drop n (b ∷ left)) h in
    (ih.0 ∙ split_at n output (b ∷ left), ih.1)
write_loop_lem (interrupted ∷ events) input output (b ∷ left) h =
    write_loop_lem events input output (b ∷ left) h
write_loop_lem (fails ∷ events) input output (b ∷ left) h = cc
write_loop_lem (moves_none ∷ events) input output (b ∷ left) h = cc

-- A pipe_write_n that succeeds has sent exactly its bytes, in order, after what was sent before,
-- and has read nothing, however the writes were split or interrupted.
pub output-pipe_write_n :
    (fd : Fd) (bytes : Bytes) {fd' : Fd}
    → pipe_write_n fd bytes ≡ returned true fd'
    → (fd'.output ≡ fd.output ++ bytes) × (fd'.input ≡ fd.input)
unfolding pipe_write_n
output-pipe_write_n fd bytes h = write_loop_lem fd.events fd.input fd.output bytes h

-- What is read is taken from the front of the input, in order.
read_loop_lem :
    (events : List Event) (input output got : Bytes) (nleft : ℕ) {got' : Bytes} {fd' : Fd}
    → read_loop events input output got nleft ≡ returned (some got') fd'
    → (got' ++ fd'.input ≡ got ++ input)
      × (fd'.output ≡ output)
      × (length got' ≤ length got + nleft)
unfolding read_loop
read_loop_lem events input output got zero h = ground arith
read_loop_lem [] input output got (suc nleft) h = cc
read_loop_lem (moves k ∷ events) [] output got (suc nleft) h = cc
read_loop_lem (moves k ∷ events) (b ∷ input) output got (suc nleft) h =
    let n = amount k (min (suc nleft) (length (b ∷ input))) in
    let ih =
      read_loop_lem events (drop n (b ∷ input)) output (got ++ take n (b ∷ input)) (suc nleft - n)
        h in
    (
      ih.0 ∙ split_at n got (b ∷ input),
      ih.1,
      omega (arith, ih.2, length-append got (take n (b ∷ input)), length-take n (b ∷ input)),
    )
read_loop_lem (interrupted ∷ events) input output got (suc nleft) h =
    read_loop_lem events input output got (suc nleft) h
read_loop_lem (fails ∷ events) input output got (suc nleft) h = cc
read_loop_lem (moves_none ∷ events) input output got (suc nleft) h = ground arith

-- What a pipe_read_n that does not fail has stored, followed by what stays to be read, is what
-- there was to be read; it has stored at most the number of bytes asked for, and has written
-- nothing.
pub input-pipe_read_n :
    (fd : Fd) (n : ℕ) {got : Bytes} {fd' : Fd}
    → pipe_read_n fd n ≡ returned (some got) fd'
    → (got ++ fd'.input ≡ fd.input) × (length got ≤ n) × (fd'.output ≡ fd.output)
unfolding pipe_read_n
input-pipe_read_n fd n h =
    let r = read_loop_lem fd.events fd.input fd.output [] n h in (r.0, omega (arith, r.2), r.1)
