-- ===== src/Ring/Direct.antt =====
-- The WSABUFs that are handed to WSARecv, and a receive into them.
use mmoserver.Shared.{
  pos, ℕ, ◌+◌, ◌-◌, ◌%◌, ◌≤◌, ◌<◌, ◌≡◌, ◌≢◌, refl, Option, none, some, List, [], ◌∷◌, ltb, ◌==◌,
  if◌then◌else◌, arith, Memory,
}
use mmoserver.Ring.State.{
  RingQ, ring_buffer_size, get_free_size, get_direct_enqueue_size, move_write_position,
}
use mmoserver.Ring.Segments.{WsaBuf, direct_en_q_loop, get_direct_en_q_data, get_direct_de_q_data}
use mmoserver.Ring.Sizes.{IsValid, used-add-free, used_lem, direct_enqueue_bounds}
use mmoserver.Ring.Fifo.{free, Extends}

-- The offset of the byte `k` of a list of buffers.
abbrev pub place : List WsaBuf → ℕ → Option ℕ
place [] k = none
place (b ∷ bs) k = if ltb k b.len then some (b.buf + k) else place bs (k - b.len)

abbrev one_segment : ℕ → ℕ → List WsaBuf
one_segment p n = record { buf = p; len = n } ∷ []

-- Two buffers that meet at the end of the array.
place_around :
    (p d n k : ℕ)
    → p + d ≡ ring_buffer_size
    → d ≤ n
    → n < ring_buffer_size
    → place (record { buf = p; len = d } ∷ one_segment 0 (n - d)) k
      ≡ (if ltb k n then some ((p + k) % ring_buffer_size) else none)
place_around p d n k e le lt = ground arith

-- One buffer up to the end of the array or of the free bytes, and one from the start for the rest.
segments_lem :
    (front rear : ℕ)
    → front < ring_buffer_size
    → rear < ring_buffer_size
    → direct_en_q_loop 2 front rear [] ≡ (
        if get_free_size front rear == 0
        then []
        else if get_free_size front rear == get_direct_enqueue_size front rear
        then one_segment ((rear + 1) % ring_buffer_size) (get_direct_enqueue_size front rear)
        else record {
          buf = (rear + 1) % ring_buffer_size;
          len = get_direct_enqueue_size front rear;
        }
          ∷ one_segment 0 (get_free_size front rear - get_direct_enqueue_size front rear))
unfolding direct_en_q_loop get_direct_enqueue_size get_free_size
segments_lem front rear hf hr = ground arith

-- The buffers for a receive are the free bytes of the ring, in the order of the queue: byte `k` of
-- them stands `k` places behind the write position, and they end where the free bytes do.
pub place-direct_en_q :
    (r : RingQ) (k : ℕ)
    → IsValid r
    → place (get_direct_en_q_data r []) k
      ≡ (if ltb k (free r) then some ((r.write_position + 1 + k) % ring_buffer_size) else none)
unfolding get_direct_en_q_data
place-direct_en_q r k v = rw (segments_lem r.read_position r.write_position v.read_in v.write_in) (
    ground (
      arith,
      direct_enqueue_bounds r.read_position r.write_position v.read_in v.write_in,
      used-add-free r.read_position r.write_position v.read_in v.write_in,
      place_around ((r.write_position + 1) % ring_buffer_size)
          (get_direct_enqueue_size r.read_position r.write_position) (free r) k,
    ))

-- `GetDirectDeQData` gives back the list that it is handed, whatever the ring holds.
pub direct_de_q-unchanged : (r : RingQ) (bufs : List WsaBuf) → get_direct_de_q_data r bufs ≡ bufs
unfolding get_direct_de_q_data
direct_de_q-unchanged r bufs = ground arith

-- What a receive of `n` bytes `src` into the buffers `bufs` is documented to do to the memory: it
-- fills the buffers in order, and writes nothing else.
pub record Received (bufs : List WsaBuf) (m m' src : Memory) (n : ℕ) : Type 0 where
  pub filled : (k i : ℕ) → k < n → place bufs k ≡ some i → m' i ≡ src k
  pub others : (i : ℕ) → ((k : ℕ) → k < n → place bufs k ≢ some i) → m' i ≡ m i

-- A receive into the ring's buffers followed by the move of the write position takes the bytes in.
pub receive-Extends :
    (r : RingQ) (m' src : Memory) (n : ℕ)
    → IsValid r
    → n ≤ free r
    → Received (get_direct_en_q_data r []) r.buffer m' src n
    → Extends r (move_write_position (record r { buffer = m' }) (pos n)) src n
unfolding move_write_position
receive-Extends r m' src n v fits rec = record {
  same_read = refl;
  write = refl;
  added = λ k lt. rec.filled k _ lt (ground (arith, place-direct_en_q r k v));
  kept = λ k lt. rec.others _ (λ j jlt e. ground (
    arith,
    place-direct_en_q r j v,
    used-add-free r.read_position r.write_position v.read_in v.write_in,
    used_lem r.read_position r.write_position v.read_in v.write_in,
  ));
}
