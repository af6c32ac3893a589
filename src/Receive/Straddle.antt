-- ===== src/Receive/Straddle.antt =====
-- A packet that goes round the end of the ring's array.
use mmoserver.Shared.{ℕ, suc, ◌+◌, ◌-◌, ◌≤◌, ◌<◌, ◌≡◌, ◌≢◌, dec_lt, subst, some, arith, slice-cong}
use mmoserver.Ring.State.{RingQ, ring_buffer_size, move_read_position}
use mmoserver.Cipher.Laws.{keys, keys-lt, keys-suc, convert_lem}
use mmoserver.Shared.Bytes.{bit_xor-changes}
use mmoserver.Receive.Defs.{packet_header_size, next_packet, take_packet, packet_bytes}
use mmoserver.Receive.Step.{front_place, next_packet-fits}

-- A byte behind the array that `Convert` changes, and that what OnRecvMessage is given does not depend
-- on the start of the array, where the rest of the packet is.
pub record Overrun (r : RingQ) (p n : ℕ) : Type 0 where
  pub place : ℕ
  pub outside : ring_buffer_size ≤ place
  pub changed : (take_packet r p n).buffer place ≢ r.buffer place
  pub blind :
      (r' : RingQ)
      → ((i : ℕ) → front_place r ≤ i → r'.buffer i ≡ r.buffer i)
      → packet_bytes (take_packet r' p n) p n ≡ packet_bytes (take_packet r p n) p n

module _ (r : RingQ) (p n : ℕ) (e : next_packet r ≡ some (p, n))
    (octets : (i : ℕ) → r.buffer i < 256) where
  message_byte :
      (k : ℕ)
      → k < n
      → 0 < keys (suc k)
      → (take_packet r p n).buffer (p + packet_header_size + k)
        ≢ r.buffer (p + packet_header_size + k)
  unfolding take_packet move_read_position
  message_byte k lt positive same =
      let at : p + packet_header_size + k - (p + packet_header_size) ≡ k = omega arith in
      bit_xor-changes (r.buffer (p + packet_header_size + k)) (keys (suc k)) (octets _) (keys-lt k)
        positive
        (ground (
          arith,
          at,
          same,
          convert_lem r.buffer (p + packet_header_size) n (p + packet_header_size + k),
        ))

  -- Whenever two bytes at least of the message of an accepted packet lie behind the end of the array,
  -- and memory holds bytes, the code changes one of the bytes there, and what OnRecvMessage is given
  -- does not depend on the bytes at the start of the array, where the rest of the packet is.
  pub straddle-Overrun : 1 < n → ring_buffer_size + 1 < p + packet_header_size + n → Overrun r p n
  unfolding take_packet move_read_position
  straddle-Overrun two past =
      let (k, lt, behind, positive) = moving_key in
      record {
        place = p + packet_header_size + k;
        outside = behind;
        changed = message_byte k lt positive;
        blind = λ r' same.
            slice-cong (take_packet r' p n).buffer (take_packet r p n).buffer p p
              (packet_header_size + n)
              (λ k lt. ground (
                arith,
                next_packet-fits r e,
                same (p + k),
                convert_lem r.buffer (p + packet_header_size) n (p + k),
                convert_lem r'.buffer (p + packet_header_size) n (p + k),
              ));
      }
    where
      moving_key :
          (k : ℕ) × (k < n) × (ring_buffer_size ≤ p + packet_header_size + k) × (0 < keys (suc k))
      moving_key = elim (dec_lt 0 (keys (suc (n - 2)))) [
        | yes moves ↦ (n - 2, omega arith, omega arith, moves)
        | no stays ↦
            let last : suc (n - 2) ≡ n - 1 = omega arith in
            (
              n - 1,
              omega arith,
              omega arith,
              subst (λ m. 0 < keys (suc m)) last (keys-suc (suc (n - 2)) (omega arith)),
            )
      ]
