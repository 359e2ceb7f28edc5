-- ===== src/Demo/Packet.antt =====
-- demo/searpc-demo-packet.h: a packet is a 16-bit length in network order and as many bytes.
use libsearpc.Prelude.{
  ℕ, ◌+◌, ◌*◌, ◌/◌, ◌%◌, ◌==◌, Bool, true, false, Option, none, some, [], ◌∷◌, ◌++◌, if◌then◌else◌,
  Bytes, length, ltb, ◌≡◌, ◌<◌, arith, refl,
}
use libsearpc.Types.{Fault, out_of_bounds}
use libsearpc.Pipe.Io.{Fd, Io, returned, blocked, write_loop, read_loop}

-- What a demo program does: it goes on, it calls exit (-1), it waits for ever in a system call, or
-- it is undefined.
pub data Demo {ℓ} (A : Type ℓ) : Type ℓ where
  goes_on : A → Fd → Demo A
  exits waits : Demo A
  crashes : Fault → Demo A

infixl 5 ◌>>=◌
abbrev pub ◌>>=◌ {ℓ κ} : {A : Type ℓ} {B : Type κ} → Demo A → (A → Fd → Demo B) → Demo B
goes_on a fd >>= f = f a fd
exits >>= f = exits
waits >>= f = waits
crashes fault >>= f = crashes fault

-- `char buf[BUFLEN]`, and PACKET_HEADER_LENGTH
abbrev pub buflen : ℕ
buflen = 256

abbrev pub packet_header_length : ℕ
packet_header_length = 2

-- htons ((uint16_t) n) as its bytes, and ntohs
unfoldable pub htons : ℕ → Bytes
htons n = (n / 256 % 256) ∷ (n % 256) ∷ []

unfoldable pub ntohs : Bytes → ℕ
ntohs (a ∷ b ∷ rest) = 256 * a + b
ntohs _ = 0

-- The loops are those of the pipes.
unfoldable pub writen : Fd → Bytes → Io Bool
unfolding write_loop
writen fd bytes = write_loop fd.events fd.input fd.output bytes

unfoldable pub readn : Fd → ℕ → Io (Option Bytes)
unfolding read_loop
readn fd n = read_loop fd.events fd.input fd.output [] n

-- The bytes of the packet; none is NULL.
unfoldable pub read_data : ℕ → Io (Option Bytes) → Demo (Option Bytes)
read_data len blocked = waits
read_data len (returned none fd) = goes_on none fd
read_data len (returned (some got) fd) =
    if length got == len then goes_on (some got) fd else goes_on none fd

-- A read that asks for more than the buffer has room for counts as undefined.
unfoldable pub read_length : Io (Option Bytes) → Demo (Option Bytes)
unfolding read_data ntohs
read_length blocked = waits
read_length (returned none fd) = exits
read_length (returned (some got) fd) =
    let len = ntohs got in
    if length got == packet_header_length
    then (if len == 0
        then goes_on none fd
        else if ltb buflen (packet_header_length + len)
        then crashes out_of_bounds
        else read_data len (readn fd len))
    else exits

-- Into a buffer of `buflen` bytes.
unfoldable pub read_packet : Fd → Demo (Option Bytes)
unfolding read_length readn
read_packet fd = read_length (readn fd packet_header_length)

unfoldable pub written : Io Bool → Demo {0} Unit
written blocked = waits
written (returned false fd) = exits
written (returned true fd) = goes_on tt fd

-- The construction of a packet in the buffer, by memcpy, and its writen.
unfoldable pub write_packet : Fd → Bytes → Demo {0} Unit
unfolding written writen htons
write_packet fd bytes =
    if ltb buflen (packet_header_length + length bytes)
    then crashes out_of_bounds
    else written (writen fd (htons (length bytes) ++ bytes))

pub ntohs-htons : (n : ℕ) → n < 65536 → ntohs (htons n) ≡ n
unfolding ntohs htons
ntohs-htons n h = omega arith

pub length-htons : (n : ℕ) → length (htons n) ≡ packet_header_length
unfolding htons
length-htons n = refl
