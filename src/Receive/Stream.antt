-- ===== src/Receive/Stream.antt =====
-- From the sender's buffers to the receiver's packets.
use mmoserver.Shared.{
  ℕ, zero, suc, ◌+◌, ◌-◌, ◌*◌, ◌≤◌, ◌<◌, ◌≡◌, refl, sym, ap, ◌∙◌, ◌⊎◌, none, some, List, [], ◌∷◌,
  ◌++◌, map, arith, dec_lt, zero-add, slice, slice-cong, length, length-append, length-slice,
  get_or, get_or-slice, get_or-append_left, append-cancel_left, append_assoc, add-zero, add_assoc,
  subst,
}
use mmoserver.Ring.State.{RingQ, ring_buffer_size, move_read_position}
use mmoserver.Ring.Sizes.{IsValid}
use mmoserver.Ring.Fifo.{used, contents, byte_at}
use mmoserver.Ring.Dequeue.{skip, contents-skip}
use mmoserver.Cipher.{convert}
use mmoserver.Cipher.Laws.{convert_lem, convert-moved}
use mmoserver.Send.Sealed.{size-seal, header-seal}
use mmoserver.Send.Packet.{NetworkPacket, seal, IsSizePrefixed, whole_bytes}
use mmoserver.Receive.Defs.{
  packet_header_size, read_scalar, next_packet, take_packet, packet_bytes, parse_loop,
}
use mmoserver.Receive.Step.{
  front_place, take_packet-IsValid, used-take_packet, contents-take_packet, next_packet-some,
  next_packet-none,
}

-- The bytes held stand in one piece.
abbrev pub IsStraight : RingQ → Type 0
IsStraight r = front_place r + used r ≤ ring_buffer_size

pub length-contents : (r : RingQ) → length (contents r) ≡ used r
length-contents r = length-slice (byte_at r) 0 (used r)

straight_byte :
    (r : RingQ) (k : ℕ)
    → IsStraight r
    → k < used r
    → r.buffer (front_place r + k) ≡ get_or (contents r) k 0
straight_byte r k s lt =
    ap r.buffer (omega arith)
    ∙ sym (get_or-slice (byte_at r) 0 (used r) k 0 lt ∙ ap (byte_at r) (zero-add k))

-- A ring that begins with an enciphered packet.
module _ (r : RingQ) (p : NetworkPacket) (rest : List ℕ) (v : IsValid r) (s : IsStraight r)
    (w : IsSizePrefixed p) (e : contents r ≡ whole_bytes (seal p) ++ rest) where
  abbrev n : ℕ
  n = w.message_size

  held : used r ≡ p.size + length rest
  held = omega (
    arith,
    length-contents r,
    ap length e,
    length-append (whole_bytes (seal p)) rest,
    length-slice (seal p).bytes 0 (seal p).size,
    size-seal p,
  )

  arrived : (k : ℕ) → k < p.size → r.buffer (front_place r + k) ≡ (seal p).bytes k
  arrived k lt =
      straight_byte r k s (omega (arith, held))
      ∙ ap (λ l. get_or l k 0) e
      ∙ get_or-append_left (whole_bytes (seal p)) rest k 0
          (omega (arith, length-slice (seal p).bytes 0 (seal p).size, size-seal p))
      ∙ get_or-slice (seal p).bytes 0 (seal p).size k 0 (omega (arith, size-seal p))
      ∙ ap (seal p).bytes (zero-add k)

  seal_message :
      (k : ℕ)
      → k < n
      → (seal p).bytes (packet_header_size + k)
        ≡ convert p.bytes packet_header_size n (packet_header_size + k)
  unfolding seal
  seal_message k lt =
      let len : p.size - packet_header_size ≡ n = omega (arith, w.whole) in ground (arith, len)

  header_byte : (k : ℕ) → k < packet_header_size → r.buffer (front_place r + k) ≡ p.bytes k
  header_byte k lt = arrived k (omega (arith, w.whole)) ∙ header-seal p k lt

  header_arrived : read_scalar r.buffer (front_place r) ≡ n
  unfolding read_scalar
  header_arrived = omega (
    arith,
    w.header,
    ap r.buffer (add-zero (front_place r)),
    header_byte 0 (omega arith),
    header_byte 1 (omega arith),
    header_byte 2 (omega arith),
    header_byte 3 (omega arith),
  )

  next : next_packet r ≡ some (front_place r, n)
  next = next_packet-some r n (omega (arith, held, w.whole)) w.small header_arrived

  abbrev taken : RingQ
  taken = take_packet r (front_place r) n

  message_byte :
      (j : ℕ)
      → j < n
      → convert r.buffer
          (front_place r + packet_header_size)
          n
          (front_place r + packet_header_size + j)
        ≡ p.bytes (packet_header_size + j)
  message_byte j lt =
      convert-moved p.bytes r.buffer packet_header_size (front_place r + packet_header_size) n j lt
        (w.octets (packet_header_size + j))
        (ap r.buffer (add_assoc (front_place r) packet_header_size j)
          ∙ arrived (packet_header_size + j) (omega (arith, w.whole))
          ∙ seal_message j lt)

  deciphered :
      (k : ℕ) → k < packet_header_size + n → taken.buffer (front_place r + k) ≡ p.bytes (0 + k)
  unfolding take_packet move_read_position
  deciphered k lt = elim (dec_lt k packet_header_size) [
    | yes header ↦ ground (
      arith,
      zero-add k,
      header_byte k header,
      convert_lem r.buffer (front_place r + packet_header_size) n (front_place r + k),
    )
    | no message ↦
        let place : front_place r + k
            ≡ front_place r + packet_header_size + (k - packet_header_size) =
          omega arith in
        let index : packet_header_size + (k - packet_header_size) ≡ 0 + k = omega arith in
        ap taken.buffer place
        ∙ message_byte (k - packet_header_size) (omega arith)
        ∙ ap p.bytes index
  ]

  plain : packet_bytes taken (front_place r) n ≡ whole_bytes p
  plain =
      slice-cong taken.buffer p.bytes (front_place r) 0 (packet_header_size + n) deciphered
      ∙ ap (slice p.bytes 0) (sym w.whole)

  fits : packet_header_size + n ≤ used r
  fits = omega (arith, held, w.whole)

  left : contents taken ≡ rest
  left =
      contents-take_packet r (front_place r) n v fits refl (omega (arith, held, w.whole))
      ∙ append-cancel_left (slice (byte_at r) 0 (packet_header_size + n))
          (contents (skip r (packet_header_size + n))) (whole_bytes (seal p)) rest
          (sym (contents-skip r (packet_header_size + n) v fits) ∙ e)
          (omega (
            arith,
            length-slice (byte_at r) 0 (packet_header_size + n),
            length-slice (seal p).bytes 0 (seal p).size,
            size-seal p,
            w.whole,
          ))

  taken-shorter : used taken + packet_header_size ≤ used r
  taken-shorter = omega (arith, fits, used-take_packet r (front_place r) n v fits)

  taken-IsValid : IsValid taken
  taken-IsValid = take_packet-IsValid r (front_place r) n v fits

  taken-IsStraight : IsStraight taken
  unfolding take_packet move_read_position
  taken-IsStraight = omega (arith, held, w.whole, used-take_packet r (front_place r) n v fits)

-- The bytes of all packets, one after the other.
abbrev pub wire : List NetworkPacket → List ℕ
wire [] = []
wire (p ∷ ps) = whole_bytes (seal p) ++ wire ps

abbrev pub AllSizePrefixed : List NetworkPacket → Type 0
AllSizePrefixed [] = Unit {0}
AllSizePrefixed (p ∷ ps) = IsSizePrefixed p × AllSizePrefixed ps

-- The number that the first four bytes give.
abbrev pub header : List ℕ → ℕ
header l = get_or l 0 0 + 256 * (get_or l 1 0 + 256 * (get_or l 2 0 + 256 * get_or l 3 0))

-- Not yet a whole packet.
abbrev pub IsPartial : List ℕ → Type 0
IsPartial l = (length l < packet_header_size) ⊎ (length l < packet_header_size + header l)

partial-next : (r : RingQ) → IsStraight r → IsPartial (contents r) → next_packet r ≡ none
unfolding read_scalar
partial-next r s h = next_packet-none r (
    ground (
      arith,
      length-contents r,
      ap r.buffer (add-zero (front_place r)),
      straight_byte r 0 s,
      straight_byte r 1 s,
      straight_byte r 2 s,
      straight_byte r 3 s,
    ))

-- What the loop does with packets that stand in the ring in one piece, with part of another behind
-- them: it hands over exactly the packets, deciphered and in order, and leaves the part.
pub parse-wire :
    (ps : List NetworkPacket) (fuel : ℕ) (r : RingQ) (rest : List ℕ)
    → IsValid r
    → IsStraight r
    → AllSizePrefixed ps
    → IsPartial rest
    → contents r ≡ wire ps ++ rest
    → used r < fuel
    → (last : RingQ) × (parse_loop fuel r ≡ some (last, map whole_bytes ps))
      × (contents last ≡ rest)
      × IsValid last
unfolding parse_loop
parse-wire ps zero r rest v s w h e lt = absurd (omega arith)
parse-wire [] (suc fuel) r rest v s w h e lt =
    (r, rw (partial-next r s (subst IsPartial (sym e) h), parse_loop), e, v)
parse-wire (p ∷ ps) (suc fuel) r rest v s w h e lt =
    let e' : contents r ≡ whole_bytes (seal p) ++ (wire ps ++ rest) =
      e ∙ append_assoc (whole_bytes (seal p)) (wire ps) rest in
    let (last, returns, left_over, valid) =
      parse-wire ps fuel (taken r p (wire ps ++ rest) v s w.0 e') rest
        (taken-IsValid r p (wire ps ++ rest) v s w.0 e')
        (taken-IsStraight r p (wire ps ++ rest) v s w.0 e') w.1 h
        (left r p (wire ps ++ rest) v s w.0 e')
        (omega (arith, taken-shorter r p (wire ps ++ rest) v s w.0 e')) in
    (
      last,
      rw (
        next r p (wire ps ++ rest) v s w.0 e',
        parse_loop,
        returns,
        plain r p (wire ps ++ rest) v s w.0 e',
      ),
      left_over,
      valid,
    )
