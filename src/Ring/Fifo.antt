-- ===== src/Ring/Fifo.antt =====
-- RingQ as a bounded queue of bytes, oldest first.
use mmoserver.Shared.{
  ℕ, ◌+◌, ◌%◌, ◌≤◌, ◌<◌, ◌≡◌, sym, ap, ap₂, ◌∙◌, List, ◌++◌, arith, zero-add, Memory, slice,
  slice-cong, slice-add,
}
use mmoserver.Ring.State.{RingQ, ring_buffer_size, get_free_size, get_used_size}
use mmoserver.Ring.Sizes.{IsValid, used-add-free, used_lem, used_of_distance}

-- The byte `k` places behind the read position, going round.
abbrev pub byte_at : RingQ → ℕ → ℕ
byte_at r k = r.buffer ((r.read_position + 1 + k) % ring_buffer_size)

abbrev pub used : RingQ → ℕ
used r = get_used_size r.read_position r.write_position

abbrev pub free : RingQ → ℕ
free r = get_free_size r.read_position r.write_position

-- The bytes held, oldest first.
abbrev pub contents : RingQ → List ℕ
contents r = slice (byte_at r) 0 (used r)

-- A ring that took `n` bytes of `src` in behind its contents.
pub record Extends (r r' : RingQ) (src : Memory) (n : ℕ) : Type 0 where
  pub same_read : r'.read_position ≡ r.read_position
  pub write : r'.write_position ≡ (r.write_position + n) % ring_buffer_size
  pub added : (k : ℕ) → k < n → r'.buffer ((r.write_position + 1 + k) % ring_buffer_size) ≡ src k
  pub kept : (k : ℕ) → k < used r → byte_at r' k ≡ byte_at r k

module _ {r r' : RingQ} {src : Memory} {n : ℕ} (v : IsValid r) (e : Extends r r' src n) where
  pub Extends-IsValid : IsValid r'
  Extends-IsValid = record {
    read_in = omega (arith, v.read_in, e.same_read);
    write_in = omega (arith, e.write);
  }

  module _ (fits : n ≤ free r) where
    Extends-used : used r' ≡ used r + n
    Extends-used =
        ap (λ f. get_used_size f r'.write_position) e.same_read
        ∙ ap (get_used_size r.read_position) moved
        ∙ used_of_distance r.read_position (used r + n) v.read_in
            (omega (arith, used-add-free r.read_position r.write_position v.read_in v.write_in))
      where
        moved : r'.write_position ≡ (r.read_position + (used r + n)) % ring_buffer_size
        moved =
            omega (arith, e.write, used_lem r.read_position r.write_position v.read_in v.write_in)

    kept_here : (k : ℕ) → k < used r → byte_at r' (0 + k) ≡ byte_at r (0 + k)
    kept_here k lt = rw zero-add (e.kept k lt)

    added_here : (k : ℕ) → k < n → byte_at r' (0 + used r + k) ≡ src (0 + k)
    added_here k lt = ap r'.buffer place ∙ e.added k lt ∙ ap src (sym (zero-add k))
      where
        place :
            (r'.read_position + 1 + (0 + used r + k)) % ring_buffer_size
            ≡ (r.write_position + 1 + k) % ring_buffer_size
        place =
            omega
              (arith, e.same_read, used_lem r.read_position r.write_position v.read_in v.write_in)

    pub contents-Extends : contents r' ≡ contents r ++ slice src 0 n
    contents-Extends =
        ap (slice (byte_at r') 0) Extends-used
        ∙ slice-add (byte_at r') 0 (used r) n
        ∙ ap₂ ◌++◌ (slice-cong (byte_at r') (byte_at r) 0 0 (used r) kept_here)
            (slice-cong (byte_at r') src (0 + used r) 0 n added_here)
