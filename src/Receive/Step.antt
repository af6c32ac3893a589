-- ===== src/Receive/Step.antt =====
-- One packet: what `next_packet` accepts, and what taking it does to the ring.
use mmoserver.Shared.{
  ℕ, ◌+◌, ◌-◌, ◌%◌, ◌≤◌, ◌<◌, ◌≡◌, ◌∙◌, ap, some, arith, slice, slice-cong, sym, ◌^◌, ◌⊎◌, none,
}
use mmoserver.Ring.State.{RingQ, ring_buffer_size, move_read_position, get_used_size}
use mmoserver.Ring.Segments.{get_read_buffer_ptr}
use mmoserver.Ring.Sizes.{IsValid, sizes_agree, used_lem}
use mmoserver.Ring.Fifo.{used, byte_at, contents}
use mmoserver.Ring.Dequeue.{skip, used-skip}
use mmoserver.Cipher.Laws.{convert_lem}
use mmoserver.Receive.Defs.{packet_header_size, next_packet, take_packet, read_scalar}

-- The first byte behind the read position.
abbrev pub front_place : RingQ → ℕ
front_place r = (r.read_position + 1) % ring_buffer_size

read_buffer_ptr_lem : (r : RingQ) → 0 < used r → get_read_buffer_ptr r ≡ some (front_place r)
unfolding get_read_buffer_ptr get_used_size
read_buffer_ptr_lem r h = ground arith

-- A packet whose header gives a size that fits the bytes held is accepted.
pub next_packet-some :
    (r : RingQ) (n : ℕ)
    → packet_header_size + n ≤ used r
    → n < 2 ^ 31
    → read_scalar r.buffer (front_place r) ≡ n
    → next_packet r ≡ some (front_place r, n)
unfolding next_packet
next_packet-some r n fits small header =
    ground (arith, header, sizes_agree r, read_buffer_ptr_lem r)

-- Too few bytes for the header, or for the message that it announces.
pub next_packet-none :
    (r : RingQ)
    → (used r < packet_header_size)
      ⊎ (used r < packet_header_size + read_scalar r.buffer (front_place r))
    → next_packet r ≡ none
unfolding next_packet
next_packet-none r h = ground (arith, sizes_agree r, read_buffer_ptr_lem r)

pub next_packet-fits :
    (r : RingQ) {p n : ℕ}
    → next_packet r ≡ some (p, n)
    → (p ≡ front_place r) × (packet_header_size + n ≤ used r)
unfolding next_packet get_read_buffer_ptr
next_packet-fits r e = ground (arith, sizes_agree r)

module _ (r : RingQ) (p n : ℕ) (v : IsValid r) (fits : packet_header_size + n ≤ used r) where
  pub take_packet-IsValid : IsValid (take_packet r p n)
  unfolding take_packet move_read_position
  take_packet-IsValid = record { read_in = omega arith; write_in = v.write_in }

  pub used-take_packet : used (take_packet r p n) ≡ used r - (packet_header_size + n)
  unfolding take_packet move_read_position
  used-take_packet = used-skip r (packet_header_size + n) v fits

  -- A packet that does not reach the end of the array: the rest of the ring stays as it was.
  module _ (here : p ≡ front_place r) (inside : p + packet_header_size + n ≤ ring_buffer_size) where
    rest_byte :
        (k : ℕ)
        → k < used (take_packet r p n)
        → byte_at (take_packet r p n) (0 + k) ≡ byte_at (skip r (packet_header_size + n)) (0 + k)
    unfolding take_packet move_read_position
    rest_byte k lt = ground (
      arith,
      used-take_packet,
      used_lem r.read_position r.write_position v.read_in v.write_in,
      convert_lem r.buffer (p + packet_header_size) n (
          ((r.read_position + (packet_header_size + n)) % ring_buffer_size + 1 + (0 + k))
          % ring_buffer_size),
    )

    pub contents-take_packet :
        contents (take_packet r p n) ≡ contents (skip r (packet_header_size + n))
    contents-take_packet =
        slice-cong (byte_at (take_packet r p n)) (byte_at (skip r (packet_header_size + n))) 0 0
          (used (take_packet r p n)) rest_byte
        ∙ ap (slice (byte_at (skip r (packet_header_size + n))) 0)
            (used-take_packet ∙ sym (used-skip r (packet_header_size + n) v fits))
