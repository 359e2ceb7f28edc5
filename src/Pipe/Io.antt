-- ===== src/Pipe/Io.antt =====
-- pipe_write_n and pipe_read_n of lib/searpc-named-pipe-transport.c (Unix). A descriptor holds the
-- bytes that its peer has sent and that are not read, those that it has written, and what the
-- system calls on it will do: the environment chooses how many bytes each call moves, when a call
-- is interrupted or fails, and when the peer closes.
pub mod Laws
pub mod Liveness
use libsearpc.Prelude.{
  ℕ, zero, suc, ◌-◌, min, Bool, true, false, Option, none, some, List, [], ◌∷◌, ◌++◌, Bytes, length,
  take, drop,
}

-- The outcome of one call of read or write: it moves up to n + 1 bytes, it is interrupted
-- (EINTR), it fails with another error, or it returns 0.
pub data Event : Type 0 where
  moves : ℕ → Event
  interrupted fails moves_none : Event

pub record Fd : Type 0 where
  pub events : List Event
  pub input : Bytes
  pub output : Bytes

-- A call that returns, or one that waits for ever: no event is left.
pub data Io {ℓ} (A : Type ℓ) : Type ℓ where
  returned : A → Fd → Io A
  blocked : Io A

infixl 5 ◌>>=◌
abbrev pub ◌>>=◌ {ℓ κ} : {A : Type ℓ} {B : Type κ} → Io A → (A → Fd → Io B) → Io B
returned a fd >>= f = f a fd
blocked >>= f = blocked

-- The bytes that a call moves: at least one, and at most `n`, where `n` is not 0.
abbrev pub amount : ℕ → ℕ → ℕ
amount k n = min (suc k) n

-- while (nleft > 0): `left` is what is not written yet.
unfoldable pub write_loop : List Event → Bytes → Bytes → Bytes → Io Bool
write_loop events input output [] =
    returned true (record { events = events; input = input; output = output })
write_loop [] input output (b ∷ left) = blocked
write_loop (moves k ∷ events) input output (b ∷ left) =
    let n = amount k (length (b ∷ left)) in
    write_loop events input (output ++ take n (b ∷ left)) (drop n (b ∷ left))
write_loop (interrupted ∷ events) input output (b ∷ left) =
    write_loop events input output (b ∷ left)
write_loop (fails ∷ events) input output (b ∷ left) =
    returned false (record { events = events; input = input; output = output })
write_loop (moves_none ∷ events) input output (b ∷ left) =
    returned false (record { events = events; input = input; output = output })

-- `false` is the result -1.
unfoldable pub pipe_write_n : Fd → Bytes → Io Bool
unfolding write_loop
pipe_write_n fd bytes = write_loop fd.events fd.input fd.output bytes

-- while (nleft > 0): `got` is what the buffer has received. A call that could move bytes waits if
-- there are none.
unfoldable pub read_loop : List Event → Bytes → Bytes → Bytes → ℕ → Io (Option Bytes)
read_loop events input output got zero =
    returned (some got) (record { events = events; input = input; output = output })
read_loop [] input output got (suc nleft) = blocked
read_loop (moves k ∷ events) [] output got (suc nleft) = blocked
read_loop (moves k ∷ events) (b ∷ input) output got (suc nleft) =
    let n = amount k (min (suc nleft) (length (b ∷ input))) in
    read_loop events (drop n (b ∷ input)) output (got ++ take n (b ∷ input)) (suc nleft - n)
read_loop (interrupted ∷ events) input output got (suc nleft) =
    read_loop events input output got (suc nleft)
read_loop (fails ∷ events) input output got (suc nleft) =
    returned none (record { events = events; input = input; output = output })
read_loop (moves_none ∷ events) input output got (suc nleft) =
    returned (some got) (record { events = events; input = input; output = output })

-- `none` is the result -1; otherwise the bytes that were stored, whose number is the result.
unfoldable pub pipe_read_n : Fd → ℕ → Io (Option Bytes)
unfolding read_loop
pipe_read_n fd n = read_loop fd.events fd.input fd.output [] n
