-- ===== src/EndToEnd.antt =====
-- From NetworkSession::Send on one side to the packets that NetworkTaskReceiveIO takes from the ring
-- on the other (ServerCore/Network/NetworkSession.h, ServerCore/Network/NetworkTask.cpp).
mod Tests
use mmoserver.Shared.{
  drop, none, ℕ, ◌+◌, ◌<◌, ◌≤◌, ◌≡◌, ◌⊎◌, inl, inr, some, List, [], ◌∷◌, ◌++◌, map, arith, refl,
  sym, ap, ap₂, ◌∙◌, subst, dec_lt, length, length-append, length-slice, get_or, get_or-slice,
  get_or-append_left, append_assoc, zero-add, slice, ◌-◌,
}
use mmoserver.Ring.State.{RingQ}
use mmoserver.Ring.Sizes.{IsValid}
use mmoserver.Ring.Fifo.{used, contents}
use mmoserver.Cipher.Laws.{convert_lem}
use mmoserver.Send.Packet.{NetworkPacket, seal, IsSizePrefixed, whole_bytes}
use mmoserver.Send.Sealed.{size-seal, header-seal}
use mmoserver.Send.Queued.{Session, Reach}
use mmoserver.Send.Composed.{sent_in_order}
use mmoserver.Send.Refine.{sender}
use mmoserver.Send.Order.{in_hand}
use mmoserver.LockFreeQ.Atomic.{items}
use mmoserver.Receive.Defs.{packet_header_size, read_scalar, parse_loop}
use mmoserver.Receive.Stream.{IsStraight, wire, AllSizePrefixed, header, IsPartial, parse-wire}

-- A list that is a beginning of `a ++ b` has all of `a`, or ends in it.
prefix_cases :
    (a b l later : List ℕ)
    → l ++ later ≡ a ++ b
    → ((l' : List ℕ) × (l ≡ a ++ l') × (l' ++ later ≡ b))
      ⊎ ((x : ℕ) × (c : List ℕ) × (a ≡ l ++ x ∷ c))
prefix_cases [] b l later h = inl (l, refl, h)
prefix_cases (x ∷ a) b [] later h = inr (x, a, refl)
prefix_cases (x ∷ a) b (y ∷ l) later h =
    let same : y ≡ x = ap (λ t. get_or t 0 y) h in
    elim (prefix_cases a b l later (ap (drop 1) h)) [
      | inl (l', is, left) ↦ inl (l', ap₂ ◌∷◌ same is, left)
      | inr (z, c, is) ↦ inr (z, c, ap₂ ◌∷◌ (sym same) is)
    ]

module _ (p : NetworkPacket) (w : IsSizePrefixed p) where
  module _ (l : List ℕ) (x : ℕ) (c : List ℕ) (e : whole_bytes (seal p) ≡ l ++ x ∷ c) where
    length-cut : length l < packet_header_size + w.message_size
    length-cut = omega (
      arith,
      ap length e,
      length-append l (x ∷ c),
      length-slice (seal p).bytes 0 (seal p).size,
      size-seal p,
      w.whole,
    )

    header_byte : (k : ℕ) → k < length l → k < packet_header_size → get_or l k 0 ≡ p.bytes k
    header_byte k lt in_header =
        sym (get_or-append_left l (x ∷ c) k 0 lt)
        ∙ ap (λ t. get_or t k 0) (sym e)
        ∙ get_or-slice (seal p).bytes 0 (seal p).size k 0 (
            omega (
              arith,
              ap length e,
              length-append l (x ∷ c),
              length-slice (seal p).bytes 0 (seal p).size,
              lt,
            ))
        ∙ ap (seal p).bytes (zero-add k)
        ∙ header-seal p k in_header

    header-cut : packet_header_size ≤ length l → w.message_size ≡ header l
    unfolding read_scalar
    header-cut enough = omega (
      arith,
      w.header,
      header_byte 0 (omega arith) (omega arith),
      header_byte 1 (omega arith) (omega arith),
      header_byte 2 (omega arith) (omega arith),
      header_byte 3 (omega arith) (omega arith),
    )

    -- A beginning of a packet is no whole packet.
    cut-IsPartial : IsPartial l
    cut-IsPartial = elim (dec_lt (length l) packet_header_size) [
      | yes few ↦ inl few
      | no more ↦
          inr (subst (λ n. length l < packet_header_size + n) (header-cut (omega arith)) length-cut)
    ]

-- A beginning of the bytes of some packets is the bytes of the first of them, and part of a further
-- one.
pub record Split (ps : List NetworkPacket) (l : List ℕ) : Type 0 where
  pub whole : List NetworkPacket
  pub more : List NetworkPacket
  pub rest : List ℕ
  pub packets : ps ≡ whole ++ more
  pub bytes : l ≡ wire whole ++ rest
  pub partial : IsPartial rest
  pub prefixed : AllSizePrefixed whole

split :
    (ps : List NetworkPacket) (l later : List ℕ)
    → AllSizePrefixed ps
    → l ++ later ≡ wire ps
    → Split ps l
split [] l later w h = record {
  whole = [];
  more = [];
  rest = l;
  packets = refl;
  bytes = refl;
  partial = inl (omega (arith, ap length h, length-append l later));
  prefixed = tt;
}
split (p ∷ ps) l later w h = elim (prefix_cases (whole_bytes (seal p)) (wire ps) l later h) [
  | inl (l', is, left) ↦
      let others = split ps l' later w.1 left in
      record {
        whole = p ∷ others.whole;
        more = others.more;
        rest = others.rest;
        packets = ap (λ t. p ∷ t) others.packets;
        bytes =
            is
            ∙ ap (λ t. whole_bytes (seal p) ++ t) others.bytes
            ∙ sym (append_assoc (whole_bytes (seal p)) (wire others.whole) others.rest);
        partial = others.partial;
        prefixed = (w.0, others.prefixed);
      }
  | inr (x, c, is) ↦ record {
    whole = [];
    more = p ∷ ps;
    rest = l;
    packets = refl;
    bytes = refl;
    partial = cut-IsPartial p w.0 l x c is;
    prefixed = tt;
  }
]

AllSizePrefixed-append :
    (ps qs : List NetworkPacket) → AllSizePrefixed (ps ++ qs) → AllSizePrefixed ps
AllSizePrefixed-append [] qs w = tt
AllSizePrefixed-append (p ∷ ps) qs w = (w.0, AllSizePrefixed-append ps qs w.1)

-- What the receiver hands over: the first of the packets that Send has put into the queue.
pub record Delivered (enqueued : List NetworkPacket) (fuel : ℕ) (r : RingQ) : Type 0 where
  pub received : List NetworkPacket
  pub more : List NetworkPacket
  pub last : RingQ
  pub in_order : enqueued ≡ received ++ more
  pub handed_over : parse_loop fuel r ≡ some (last, map whole_bytes received)
  pub valid : IsValid last
  pub partial : IsPartial (contents last)

-- Whatever calls of Send and send tasks of a session have done, each access of EnQ and DeQ a step: when
-- a beginning of the bytes that WSASend was called with stands in one piece in a valid ring of the
-- receiver, the parsing loop, with fuel above its number of bytes, hands over the first of the packets
-- that EnQ put in, deciphered and in the order in which it did, and leaves a valid ring with part of a
-- packet at most; the queued packets are size-prefixed.
pub delivered_lem :
    {blank : NetworkPacket} {max_count n : ℕ} {s : Session NetworkPacket}
    → Reach blank max_count n s
    → AllSizePrefixed s.queue.memory.enqueued
    → (fuel : ℕ) (r : RingQ) (later : List ℕ) → IsValid r
    → IsStraight r
    → contents r ++ later ≡ wire s.requested
    → used r < fuel
    → Delivered s.queue.memory.enqueued fuel r
delivered_lem {n = n} {s} reach w fuel r later valid straight arrived enough =
    let behind = in_hand n (sender n s).tasks ++ items s.queue.memory in
    let order = sent_in_order reach in
    let parts =
      split s.requested (contents r) later
        (AllSizePrefixed-append s.requested behind (subst AllSizePrefixed order w)) arrived in
    let (last, returns, left, last_valid) =
      parse-wire parts.whole fuel r parts.rest valid straight parts.prefixed parts.partial
        parts.bytes enough in
    record {
      received = parts.whole;
      more = parts.more ++ behind;
      last = last;
      in_order =
          order ∙ ap (λ t. t ++ behind) parts.packets ∙ append_assoc parts.whole parts.more behind;
      handed_over = returns;
      valid = last_valid;
      partial = subst IsPartial (sym left) parts.partial;
    }
