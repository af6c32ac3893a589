-- ===== src/MemoryPool.antt =====
-- MemoryPool of ServerCore/Memory/MemoryPool.cpp: the table from sizes to pools of blocks, the routing
-- of `Alloc` and `Free` by it, and MyAllocator of MemoryPool.h. A pool is named by the size of its
-- blocks. The object is a global, so an entry that the constructor does not write is null.
mod Tests
use mmoserver.Shared.{
  ◌%◌, ◌^◌, ap, ◌∙◌, sym, ℕ, zero, suc, ◌+◌, ◌-◌, ◌*◌, ◌≤◌, ◌<◌, ◌≡◌, ◌⊎◌, refl, Option, none, some,
  List, [], ◌∷◌, ltb, leb, if◌then◌else◌, arith, ◌&&◌, dec_lt, inl, inr,
}
use mmoserver.Families.{assign}

abbrev pub page_size : ℕ
page_size = 4096

-- `m_memory` and the counter `memorySize` of the constructor.
pub record Filling : Type 0 where
  pub memory : ℕ → Option ℕ
  pub memory_size : ℕ

-- The loop `for (memorySize; memorySize <= limit; ++memorySize)` over fuel.
unfoldable pub fill : ℕ → ℕ → Filling → Filling
fill zero limit t = t
fill (suc fuel) limit t =
    let rest = fill fuel limit (record {
      memory = assign t.memory t.memory_size (some limit);
      memory_size = t.memory_size + 1;
    }) in
    if leb t.memory_size limit then rest else t

-- The constructor, with fuel for each loop.
unfoldable pub new : ℕ → ℕ → Option ℕ
unfolding fill
new fuel =
    (fill fuel 4096 (
      fill fuel 2048 (
        fill fuel 1024 (
          fill fuel 512 (
            fill fuel 256 (
              fill fuel 128
                (fill fuel 64 (record { memory = λ i. none; memory_size = 1 })))))))).memory

-- Where a request goes: to `_aligned_malloc` and `_aligned_free`, to a pool, or to a member function
-- of a null pointer.
pub data Route : Type 0 where
  aligned : Route
  pool : ℕ → Route
  null_pool : Route

-- `Alloc` and `Free` choose alike, by the size that each is given.
unfoldable pub alloc : (ℕ → Option ℕ) → ℕ → Route
alloc memory size =
    if ltb page_size size
    then aligned
    else (elim (memory size) [ none ↦ null_pool | some block ↦ pool block ])

unfoldable pub free : (ℕ → Option ℕ) → ℕ → Route
free memory size =
    if ltb page_size size
    then aligned
    else (elim (memory size) [ none ↦ null_pool | some block ↦ pool block ])

-- A loop with enough fuel writes the entries from its counter to its limit.
fill_lem :
    (fuel limit : ℕ) (t : Filling)
    → t.memory_size ≤ limit + 1
    → limit + 1 - t.memory_size ≤ fuel
    → ((fill fuel limit t).memory_size ≡ limit + 1)
      × ((i : ℕ)
          → (fill fuel limit t).memory i
            ≡ (if leb t.memory_size i && leb i limit then some limit else t.memory i))
unfolding fill
fill_lem zero limit t le h = (omega arith, λ i. ground arith)
fill_lem (suc fuel) limit t le h =
    let t' : Filling = record {
      memory = assign t.memory t.memory_size (some limit);
      memory_size = t.memory_size + 1;
    } in
    elim (dec_lt limit t.memory_size) [
      | yes over ↦ (ground arith, λ i. ground arith)
      | no more ↦
          let (counter, entries) = fill_lem fuel limit t' (omega arith) (omega arith) in
          (ground (arith, counter), λ i. ground (arith, entries i))
    ]

-- The size of the blocks that serve a size up to `page_size`.
abbrev pub class : ℕ → ℕ
class size =
    if leb size 64
    then 64
    else if leb size 128
    then 128
    else if leb size 256
    then 256
    else if leb size 512
    then 512
    else if leb size 1024
    then 1024
    else if leb size 2048
    then 2048
    else 4096

new_lem :
    (fuel i : ℕ)
    → 2048 ≤ fuel
    → new fuel i ≡ (if ltb 0 i && leb i page_size then some (class i) else none)
unfolding new
new_lem fuel i h =
    let t0 : Filling = record { memory = λ i. none; memory_size = 1 } in
    let t1 = fill fuel 64 t0 in
    let t2 = fill fuel 128 t1 in
    let t3 = fill fuel 256 t2 in
    let t4 = fill fuel 512 t3 in
    let t5 = fill fuel 1024 t4 in
    let t6 = fill fuel 2048 t5 in
    let (c1, e1) = fill_lem fuel 64 t0 (omega arith) (omega arith) in
    let (c2, e2) = fill_lem fuel 128 t1 (omega (arith, c1)) (omega (arith, c1)) in
    let (c3, e3) = fill_lem fuel 256 t2 (omega (arith, c2)) (omega (arith, c2)) in
    let (c4, e4) = fill_lem fuel 512 t3 (omega (arith, c3)) (omega (arith, c3)) in
    let (c5, e5) = fill_lem fuel 1024 t4 (omega (arith, c4)) (omega (arith, c4)) in
    let (c6, e6) = fill_lem fuel 2048 t5 (omega (arith, c5)) (omega (arith, c5)) in
    let (c7, e7) = fill_lem fuel 4096 t6 (omega (arith, c6)) (omega (arith, c6)) in
    ground (arith, e1 i, e2 i, e3 i, e4 i, e5 i, e6 i, e7 i, c1, c2, c3, c4, c5, c6, c7)

-- With fuel 2048 for each loop, a request of 1 to 4096 bytes goes to a pool with blocks of at least
-- that size, and of less than twice that size when they have more than 64 bytes; `Free` with the same
-- size goes to the same pool; a larger request goes to `_aligned_malloc`, and one of no bytes calls a
-- null pool.
routes :
    (fuel size : ℕ)
    → 2048 ≤ fuel
    → (free (new fuel) size ≡ alloc (new fuel) size)
      × (((page_size < size) × (alloc (new fuel) size ≡ aligned))
          ⊎ (((size ≡ 0) × (alloc (new fuel) size ≡ null_pool))
              ⊎ ((block : ℕ) × (alloc (new fuel) size ≡ pool block)
                  × (size ≤ block)
                  × ((block ≡ 64) ⊎ (block < 2 * size)))))
unfolding alloc free
routes fuel size h = (
  refl,
  elim (dec_lt page_size size) [
    | yes large ↦ inl (large, ground arith)
    | no small ↦ elim (dec_lt 0 size) [
      | yes some_bytes ↦
          inr (inr (class size, ground (arith, new_lem fuel size h), ground arith, ground arith))
      | no nothing ↦ inr (inl (omega arith, ground (arith, new_lem fuel size h)))
    ]
  ],
)

-- `static_cast<int>(n)`, made a `size_t` again: the low 32 bits with their sign.
unfoldable pub int_cast : ℕ → ℕ
int_cast n = if ltb (n % 2 ^ 32) (2 ^ 31) then n % 2 ^ 32 else n % 2 ^ 32 + (2 ^ 64 - 2 ^ 32)

-- MyAllocator of ServerCore/Memory/MemoryPool.h for a type of `size_of` bytes. A `size_t` keeps its
-- low 64 bits.
unfoldable pub allocate : (ℕ → Option ℕ) → ℕ → ℕ → Route
unfolding alloc int_cast
allocate memory size_of n = alloc memory (int_cast n * size_of % 2 ^ 64)

unfoldable pub deallocate : (ℕ → Option ℕ) → ℕ → ℕ → Route
unfolding free
deallocate memory size_of n = free memory (n * size_of % 2 ^ 64)

whole : (a : ℕ) → a < 2 ^ 64 → a % 2 ^ 64 ≡ a
whole a lt = omega arith

int_cast_lem : (n : ℕ) → n < 2 ^ 31 → int_cast n ≡ n
unfolding int_cast
int_cast_lem n small = ground arith

bytes_lem :
    (size_of n : ℕ)
    → n < 2 ^ 31
    → n * size_of < 2 ^ 64
    → int_cast n * size_of % 2 ^ 64 ≡ n * size_of
bytes_lem size_of n small fits =
    ap (λ k. k * size_of % 2 ^ 64) (int_cast_lem n small) ∙ whole (n * size_of) fits

-- With fuel 2048 for each loop of the constructor, MyAllocator gives `n` elements back to where they
-- came from when `n` is below 2 ^ 31 and they have 1 to 2 ^ 64 - 1 bytes together: to `_aligned_malloc`
-- when they have more than 4096 bytes, and else to one pool, with blocks that hold them all, and of
-- less than twice their bytes when they have more than 64 bytes.
pub allocate_lem :
    (fuel size_of n : ℕ)
    → 2048 ≤ fuel
    → n < 2 ^ 31
    → 0 < n * size_of
    → n * size_of < 2 ^ 64
    → (deallocate (new fuel) size_of n ≡ allocate (new fuel) size_of n)
      × (((page_size < n * size_of) × (allocate (new fuel) size_of n ≡ aligned))
          ⊎ ((block : ℕ) × (allocate (new fuel) size_of n ≡ pool block)
              × (n * size_of ≤ block)
              × ((block ≡ 64) ⊎ (block < 2 * (n * size_of)))))
unfolding allocate deallocate
allocate_lem fuel size_of n h small some_bytes fits =
    let (same, way) = routes fuel (n * size_of) h in
    let out = ap (alloc (new fuel)) (bytes_lem size_of n small fits) in
    let back = ap (free (new fuel)) (whole (n * size_of) fits) in
    (
      back ∙ same ∙ sym out,
      elim way [
        | inl (large, is) ↦ inl (large, out ∙ is)
        | inr (inl (nothing, is)) ↦ absurd (omega arith)
        | inr (inr (block, is, holds, tight)) ↦ inr (block, out ∙ is, holds, tight)
      ],
    )
