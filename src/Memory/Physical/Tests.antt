-- ===== src/Memory/Physical/Tests.antt =====
-- The allocator of kernel/mem/physical_mem/physical_mem.c on a small map.
use gecko_os_mac_compatabili.Common.{ℕ, zero, suc, ◌+◌, ◌<◌, ◌≡◌, refl, true, arith}
use gecko_os_mac_compatabili.Memory.Physical.{
  PhysicalMemory, block_free, set_block, set_blocks, find_in_word, find_in_map, free_count,
  find_first_free_blocks, allocate_blocks, free_blocks, initialize_memory_manager,
  initialize_memory_region, deinitialize_memory_region,
}
use gecko_os_mac_compatabili.Memory.Physical.Blocks.{block_free-set_blocks}
use gecko_os_mac_compatabili.Memory.Physical.Find.{Least, decode, find_first_free_blocks-Least}
use gecko_os_mac_compatabili.Memory.Physical.Alloc.{
  Outcome, IsAllocated, allocate_blocks_lem, free-allocate,
}
use gecko_os_mac_compatabili.Memory.Physical.Boot.{block_free-boot}

-- 64 blocks, of which 0 and 32 are used.
abbrev small : PhysicalMemory
small = record { memory_map = λ _. 1; max_blocks = 64; used_blocks = 2 }

abbrev once : PhysicalMemory
once = record (set_blocks 2 1 small) { used_blocks = 4 }

abbrev twice : PhysicalMemory
twice = record (set_blocks 3 3 once) { used_blocks = 7 }

first_two : find_first_free_blocks small 2 ≡ 1
unfolding find_first_free_blocks find_in_map find_in_word free_count block_free
first_two = refl

next_three : find_first_free_blocks once 3 ≡ 3
unfolding find_first_free_blocks find_in_map find_in_word free_count block_free set_blocks set_block
next_three = refl

free_small : (c : ℕ) → 1 < c + 1 → c < 3 → block_free small.memory_map c ≡ true
unfolding block_free
free_small zero p q = absurd (omega arith)
free_small (suc zero) p q = refl
free_small (suc (suc zero)) p q = refl
free_small (suc (suc (suc c))) p q = absurd (omega arith)

free_once : (c : ℕ) → 3 < c + 1 → c < 6 → block_free once.memory_map c ≡ true
unfolding block_free set_blocks set_block
free_once zero p q = absurd (omega arith)
free_once (suc zero) p q = absurd (omega arith)
free_once (suc (suc zero)) p q = absurd (omega arith)
free_once (suc (suc (suc zero))) p q = refl
free_once (suc (suc (suc (suc zero)))) p q = refl
free_once (suc (suc (suc (suc (suc zero))))) p q = refl
free_once (suc (suc (suc (suc (suc (suc c)))))) p q = absurd (omega arith)

once-IsAllocated : IsAllocated 2 small 1 4096 once
unfolding set_blocks set_block
once-IsAllocated = record {
  address = refl;
  inside = omega arith;
  was_free = λ c p q. free_small c (omega arith) (omega arith);
  marked = λ c. block_free-set_blocks 2 1 small c (omega arith);
  counted = refl;
  same_size = refl;
}

twice-IsAllocated : IsAllocated 3 once 3 12288 twice
unfolding set_blocks set_block
twice-IsAllocated = record {
  address = refl;
  inside = omega arith;
  was_free = λ c p q. free_once c (omega arith) (omega arith);
  marked = λ c. block_free-set_blocks 3 3 once c (omega arith);
  counted = refl;
  same_size = refl;
}

find_first_free_blocks-Least_example :
    Least small.memory_map 2 0 64 (decode (find_first_free_blocks small 2))
find_first_free_blocks-Least_example =
    find_first_free_blocks-Least small 2 (omega arith) (omega arith)

allocate_blocks_lem_example : Outcome 2 small (allocate_blocks 2 small)
allocate_blocks_lem_example = allocate_blocks_lem 2 small (omega arith) (omega arith) (omega arith)

free-allocate_example :
    ((c : ℕ) → block_free (free_blocks 4096 2 once).memory_map c ≡ block_free small.memory_map c)
    × ((free_blocks 4096 2 once).used_blocks ≡ 2)
free-allocate_example =
    free-allocate 2 small (omega arith) (omega arith) (omega arith) once-IsAllocated

-- A map of 256 blocks with a hole of 4 blocks from block 16 on.
block_free-boot_example :
    block_free
      (deinitialize_memory_region 0x10000 0x4000 (
        initialize_memory_region 0 0x80000
          (initialize_memory_manager (λ _. 0) 0x100000))).memory_map
      20
    ≡ true
block_free-boot_example =
    block_free-boot (λ _. 0) 0x100000 0 0x80000 0x10000 0x4000 20 (omega arith) (omega arith)
      (omega arith)
