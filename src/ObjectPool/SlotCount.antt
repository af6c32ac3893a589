-- ===== src/ObjectPool/SlotCount.antt =====
-- CalcSlotCount of ServerCore/Memory/Chunk.h.
use mmoserver.Shared.{
  ℕ, ◌*◌, ◌/◌, ◌≤◌, ◌<◌, ◌≡◌, ◌⊎◌, inl, inr, leb, if◌then◌else◌, arith, refl, Bool, true, false,
  ◌+◌,
}
use native.Mathlib.Nat.{mul-le-mul_left, div-mul-le_self, le-div_iff_mul-le, mul-le-mul_left}
use mmoserver.ObjectPool.Defs.{calc_slot_count, mb, kb}

-- The bytes of a ChunkMetadata: two words and two pointers.
abbrev pub metadata_size : ℕ
metadata_size = 4 * 8

-- The `c` objects of `s` bytes, and with their metadata the slots, are bounded, or there are 64.
abbrev pub IsSlotCount : ℕ → ℕ → Type 0
IsSlotCount s c =
    (0 < c) × (((c * s ≤ 2 * mb) × (c * (metadata_size + s) ≤ 8 * mb + 256 * kb)) ⊎ (c ≡ 64))

slots_lem :
    (c s y : ℕ)
    → 0 < s
    → c * s ≤ y
    → (y ≤ 256 * kb) ⊎ ((64 < s) × (y ≤ 2 * mb))
    → c * (metadata_size + s) ≤ 8 * mb + 256 * kb
slots_lem c s y h le (inl few) =
    let more : c * 1 ≤ c * s = mul-le-mul_left c (omega arith) in omega arith
slots_lem c s y h le (inr (large, few)) =
    let more : c * 64 ≤ c * s = mul-le-mul_left c (omega arith) in omega arith

quotient-IsSlotCount :
    (s y : ℕ) → 0 < s → s ≤ y → (y ≤ 256 * kb) ⊎ ((64 < s) × (y ≤ 2 * mb)) → IsSlotCount s (y / s)
quotient-IsSlotCount s y h le few =
    let fits : y / s * s ≤ y = div-mul-le_self y s in
    (
      (le-div_iff_mul-le {x = 1} h).1 (omega arith),
      inl (omega (arith, few), slots_lem (y / s) s y h fits few),
    )

if-IsSlotCount :
    (s : ℕ) (b : Bool) (x y : ℕ)
    → (b ≡ true → IsSlotCount s x)
    → (b ≡ false → IsSlotCount s y)
    → IsSlotCount s (if b then x else y)
if-IsSlotCount s true x y h k = h refl
if-IsSlotCount s false x y h k = k refl

-- A page of a type with a positive number of bytes has slots; without their metadata the objects in
-- them have at most two megabytes together, and with the 32 bytes of metadata of each at most eight and
-- a quarter, not counting padding; or else there are 64 slots.
pub calc_slot_count_lem : (s : ℕ) → 0 < s → IsSlotCount s (calc_slot_count s)
unfolding calc_slot_count
calc_slot_count_lem s h =
    if-IsSlotCount s (leb s 64) _ _
      (λ e. quotient-IsSlotCount s (256 * kb) h (ground arith) (inl (omega arith)))
      (λ large.
        if-IsSlotCount s (leb s 128) _ _
          (λ e. quotient-IsSlotCount s (1 * mb) h (ground arith) (inr (ground arith)))
          (λ _.
            if-IsSlotCount s (leb s 256) _ _
              (λ e. quotient-IsSlotCount s (1 * mb) h (ground arith) (inr (ground arith)))
              (λ _.
                if-IsSlotCount s (leb s 512) _ _
                  (λ e. quotient-IsSlotCount s (2 * mb) h (ground arith) (inr (ground arith)))
                  (λ _.
                    if-IsSlotCount s (leb s 1024) _ _
                      (λ e. quotient-IsSlotCount s (2 * mb) h (ground arith) (inr (ground arith)))
                      (λ _.
                        if-IsSlotCount s (leb 64 (2 * mb / s)) _ _
                          (λ e. (
                            ground arith,
                            inl (
                              omega (arith, div-mul-le_self (2 * mb) s),
                              slots_lem (2 * mb / s) s (2 * mb) h (div-mul-le_self (2 * mb) s)
                                  (inr (ground arith)),
                            ),
                          ))
                          (λ e. (omega arith, inr refl)))))))
