-- ===== src/Demo/Laws.antt =====
-- The packets of demo/searpc-demo-packet.h: which ones fit the buffers.
use libsearpc.Prelude.{
  ℕ, ◌+◌, ◌≤◌, ◌<◌, ◌≡◌, refl, ◌∙◌, ap, ◌==◌, ◌⊎◌, inl, inr, true, false, some, List, ◌++◌,
  append_assoc, Bytes, length, length-append, if◌then◌else◌, ltb, arith, Bool-cases,
}
use libsearpc.Types.{out_of_bounds}
use libsearpc.Pipe.Io.{Event, Fd, returned, pipe_write_n, pipe_read_n}
use libsearpc.Pipe.Io.Liveness.{Steady, moving, pipe_write_n-Steady}
use libsearpc.Pipe.Send.Laws.{pipe_read_n_front}
use libsearpc.Demo.Packet.{
  goes_on, crashes, htons, writen, readn, read_data, read_length, read_packet, written,
  write_packet, ntohs-htons, length-htons,
}

-- A packet of data.
abbrev pub packet : Bytes → Bytes
packet text = htons (length text) ++ text

-- What the data of a packet may be: not empty, and within the buffer.
abbrev pub Fitting : Bytes → Type 0
Fitting text = (0 < length text) × (length text ≤ 254)

writen-pipe_write_n : (fd : Fd) (bytes : Bytes) → writen fd bytes ≡ pipe_write_n fd bytes
unfolding writen pipe_write_n
writen-pipe_write_n fd bytes = refl

readn-pipe_read_n : (fd : Fd) (n : ℕ) → readn fd n ≡ pipe_read_n fd n
unfolding readn pipe_read_n
readn-pipe_read_n fd n = refl

pub write_packet-Steady :
    (fd : Fd) (text : Bytes)
    → Steady fd.events
    → 2 + length text ≤ moving fd.events
    → length text ≤ 254
    → (events' : List Event) × (write_packet fd text
        ≡ goes_on tt (record fd { events = events'; output = fd.output ++ packet text }))
      × Steady events'
      × (moving fd.events ≤ moving events' + (2 + length text))
unfolding write_packet written
write_packet-Steady fd text s m b =
    let l : length (packet text) ≡ 2 + length text =
      length-append (htons (length text)) text
      ∙ ap (λ (n : ℕ). n + length text) (length-htons (length text)) in
    let room : ltb 256 (2 + length text) ≡ false = ground arith in
    let (events', e, s', m') = pipe_write_n-Steady fd (packet text) s (omega (arith, l)) in
    (events', rw (room, writen-pipe_write_n fd (packet text), e) refl, s', omega (arith, l))

-- What follows the header of a packet that says it has `n` bytes.
read_length-some :
    (fd : Fd) (n : ℕ)
    → 0 < n
    → n < 65536
    → read_length (returned (some (htons n)) fd)
      ≡ (if ltb 254 n then crashes out_of_bounds else read_data n (readn fd n))
unfolding read_length
read_length-some fd n p q = ground (arith, ntohs-htons n q, length-htons n)

read_packet-header :
    (fd : Fd) (text rest : Bytes)
    → Steady fd.events
    → 2 + length text ≤ moving fd.events
    → 0 < length text
    → length text < 65536
    → fd.input ≡ packet text ++ rest
    → (events' : List Event) × (read_packet fd ≡ (
        if ltb 254 (length text)
        then crashes out_of_bounds
        else read_data
            (length text)
            (readn (record fd { events = events'; input = text ++ rest }) (length text))))
      × Steady events'
      × (moving fd.events ≤ moving events' + 2)
unfolding read_packet
read_packet-header fd text rest s m p q i =
    let word = htons (length text) in
    let (events1, e1, s1, m1) =
      pipe_read_n_front fd word (text ++ rest) (length-htons (length text)) s (omega arith)
        (i ∙ append_assoc word text rest) in
    (
      events1,
      rw (readn-pipe_read_n fd 2, e1)
          (read_length-some (record fd { events = events1; input = text ++ rest }) (length text) p
            q),
      s1,
      m1,
    )

read_data-all :
    (text : Bytes) (fd : Fd)
    → read_data (length text) (returned (some text) fd) ≡ goes_on (some text) fd
unfolding read_data
read_data-all text fd = let e : (length text == length text) ≡ true = ground arith in rw e refl

-- Where a packet with 1 to below 65536 bytes arrives on a connection whose reads go on moving
-- bytes and suffice: read_packet is undefined, by a read that is given more room than its buffer
-- of 256 bytes has, where the packet has more than 254 bytes, and otherwise it returns exactly
-- those bytes and leaves what follows.
pub read_packet_bounds :
    (fd : Fd) (text rest : Bytes)
    → Steady fd.events
    → 2 + length text ≤ moving fd.events
    → 0 < length text
    → length text < 65536
    → fd.input ≡ packet text ++ rest
    → ((254 < length text) × (read_packet fd ≡ crashes out_of_bounds))
      ⊎ ((length text ≤ 254)
          × ((events' : List Event) × (read_packet fd
                ≡ goes_on (some text) (record fd { events = events'; input = rest }))
              × Steady events'
              × (moving fd.events ≤ moving events' + (2 + length text))))
read_packet_bounds fd text rest s m p q i =
    let (events1, e1, s1, m1) = read_packet-header fd text rest s m p q i in
    elim (Bool-cases (ltb 254 (length text))) [
      | inl b ↦ inl (ground arith, e1 ∙ rw b refl)
      | inr b ↦
          let fd1 : Fd = record fd { events = events1; input = text ++ rest } in
          let (events2, e2, s2, m2) = pipe_read_n_front fd1 text rest refl s1 (omega arith) refl in
          inr (
            ground arith,
            (
              events2,
              e1
                  ∙ rw b (
                      rw (readn-pipe_read_n fd1 (length text), e2)
                        (read_data-all text (record fd { events = events2; input = rest }))),
              s2,
              omega arith,
            ),
          )
    ]

pub read_packet-Steady :
    (fd : Fd) (text rest : Bytes)
    → Steady fd.events
    → 2 + length text ≤ moving fd.events
    → Fitting text
    → fd.input ≡ packet text ++ rest
    → (events' : List Event) × (read_packet fd
        ≡ goes_on (some text) (record fd { events = events'; input = rest }))
      × Steady events'
      × (moving fd.events ≤ moving events' + (2 + length text))
read_packet-Steady fd text rest s m (p, q) i =
    elim (read_packet_bounds fd text rest s m p (omega arith) i) [
      | inl (b, e) ↦ absurd (omega arith)
      | inr (b, r) ↦ r
    ]
