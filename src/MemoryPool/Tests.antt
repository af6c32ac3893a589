-- ===== src/MemoryPool/Tests.antt =====
-- An array of 25 elements of four bytes.
use mmoserver.Shared.{ℕ, ◌*◌, ◌≤◌, ◌<◌, ◌≡◌, ◌⊎◌, arith}
use mmoserver.MemoryPool.{page_size, new, allocate, deallocate, allocate_lem, aligned, pool}

allocate_lem_example :
    (deallocate (new 2048) 4 25 ≡ allocate (new 2048) 4 25)
    × (((page_size < 100) × (allocate (new 2048) 4 25 ≡ aligned))
        ⊎ ((block : ℕ) × (allocate (new 2048) 4 25 ≡ pool block)
            × (100 ≤ block)
            × ((block ≡ 64) ⊎ (block < 2 * 100))))
allocate_lem_example =
    allocate_lem 2048 4 25 (omega arith) (omega arith) (omega arith) (omega arith)
