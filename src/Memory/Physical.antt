-- ===== src/Memory/Physical.antt =====
-- kernel/mem/physical_mem/physical_mem.c: the bitmap of 4 KB blocks.
-- A set bit is a block in use. `memory_map` is the whole memory from the map's address on, one
-- number for each 32-bit word, since the source checks no index against the map's size.
pub mod Blocks
pub mod Find
pub mod Alloc
pub mod Boot
mod Tests
use gecko_os_mac_compatabili.Common.{
  ℕ, zero, suc, ◌+◌, ◌-◌, ◌*◌, ◌/◌, ◌%◌, ◌^◌, min, bit_and, bit_or, Bool, Option, none, some, ltb,
  leb, ◌==◌, ◌&&◌, if◌then◌else◌,
}

abbrev pub block_size : ℕ
block_size = 4096

abbrev pub all_ones : ℕ
all_ones = 2 ^ 32 - 1

pub record PhysicalMemory : Type 0 where
  pub memory_map : ℕ → ℕ
  pub max_blocks : ℕ
  pub used_blocks : ℕ

-- `memory_map[i] = v`
abbrev pub store : (ℕ → ℕ) → ℕ → ℕ → ℕ → ℕ
store m i v j = if i == j then v else m j

pub set_block : PhysicalMemory → ℕ → PhysicalMemory
set_block s b = record s {
  memory_map = store s.memory_map (b / 32) (bit_or (s.memory_map (b / 32)) (2 ^ (b % 32)));
}

pub unset_block : PhysicalMemory → ℕ → PhysicalMemory
unset_block s b = record s {
  memory_map =
      store s.memory_map (b / 32) (bit_and (s.memory_map (b / 32)) (all_ones - 2 ^ (b % 32)));
}

-- `!(memory_map[bit / 32] & (1u << (bit % 32)))`
pub block_free : (ℕ → ℕ) → ℕ → Bool
block_free m b = bit_and (m (b / 32)) (2 ^ (b % 32)) == 0

-- The loop over `k`: how many of the `n` blocks from `b` on are free before the first used one.
pub free_count : (ℕ → ℕ) → ℕ → ℕ → ℕ
free_count m zero b = 0
free_count m (suc n) b = if block_free m b then suc (free_count m n (b + 1)) else 0

-- The loop over `j`, with `r` rounds left.
pub find_in_word : (ℕ → ℕ) → ℕ → ℕ → ℕ → ℕ → Option ℕ
find_in_word m n i zero j = none
find_in_word m n i (suc r) j =
    let rest = find_in_word m n i r (j + 1) in
    if bit_and (m i) (2 ^ j) == 0
    then (if free_count m n (i * 32 + j) == n then some (i * 32 + j) else rest)
    else rest

-- The loop over `i`, with `r` rounds left.
pub find_in_map : (ℕ → ℕ) → ℕ → ℕ → ℕ → Option ℕ
find_in_map m n zero i = none
find_in_map m n (suc r) i =
    let rest = find_in_map m n r (i + 1) in
    if m i == all_ones
    then rest
    else elim (find_in_word m n i 32 0) [ some b ↦ some b | none ↦ rest ]

-- The result as an `int32_t` bit pattern; -1 is `all_ones`.
pub find_first_free_blocks : PhysicalMemory → ℕ → ℕ
find_first_free_blocks s n =
    if n == 0 then all_ones else elim (find_in_map s.memory_map n (s.max_blocks / 32) 0) [
      | some b ↦ b % 2 ^ 32
      | none ↦ all_ones
    ]

-- `memset(memory_map, 0xFF, n)` on word `i`: the low `min 4 (n - 4 i)` bytes become 0xFF.
pub fill_word : ℕ → ℕ → ℕ → ℕ
fill_word n i w = let m = 2 ^ (8 * min 4 (n - 4 * i)) in (w / m) * m + (m - 1)

-- `memory` is what stands at `start_address` on.
pub initialize_memory_manager : (ℕ → ℕ) → ℕ → PhysicalMemory
initialize_memory_manager memory size = record {
  memory_map = λ i. fill_word (size / block_size / 8) i (memory i);
  max_blocks = size / block_size;
  used_blocks = size / block_size;
}

-- `n` rounds of `unset_block((uint32_t)align++); used_blocks--`.
pub release_region : ℕ → ℕ → PhysicalMemory → PhysicalMemory
release_region zero align s = s
release_region (suc n) align s =
    let t = unset_block s (align % 2 ^ 32) in
    release_region n (align + 1) (record t { used_blocks = (t.used_blocks + 2 ^ 64 - 1) % 2 ^ 64 })

pub initialize_memory_region : ℕ → ℕ → PhysicalMemory → PhysicalMemory
initialize_memory_region base size s =
    set_block (release_region (size / block_size) (base / block_size) s) 0

-- `n` rounds of `set_block((uint32_t)align++); used_blocks++`.
pub reserve_region : ℕ → ℕ → PhysicalMemory → PhysicalMemory
reserve_region zero align s = s
reserve_region (suc n) align s =
    let t = set_block s (align % 2 ^ 32) in
    reserve_region n (align + 1) (record t { used_blocks = (t.used_blocks + 1) % 2 ^ 64 })

pub deinitialize_memory_region : ℕ → ℕ → PhysicalMemory → PhysicalMemory
deinitialize_memory_region base size s = reserve_region (size / block_size) (base / block_size) s

-- `n` rounds of `set_block((uint32_t)start + i)` with `b = start + i`.
pub set_blocks : ℕ → ℕ → PhysicalMemory → PhysicalMemory
set_blocks zero b s = s
set_blocks (suc n) b s = set_blocks n (b + 1) (set_block s (b % 2 ^ 32))

pub unset_blocks : ℕ → ℕ → PhysicalMemory → PhysicalMemory
unset_blocks zero b s = s
unset_blocks (suc n) b s = unset_blocks n (b + 1) (unset_block s (b % 2 ^ 32))

-- `(uint64_t)start` of an `int32_t`: the sign is extended.
pub extend_sign : ℕ → ℕ
extend_sign w = if ltb w (2 ^ 31) then w else w + (2 ^ 64 - 2 ^ 32)

abbrev pub null : ℕ
null = 0

-- The address that is returned, and the new state.
pub allocate_blocks : ℕ → PhysicalMemory → ℕ × PhysicalMemory
unfolding extend_sign
allocate_blocks n s =
    let start = find_first_free_blocks s n in
    if leb ((s.max_blocks + 2 ^ 64 - s.used_blocks) % 2 ^ 64) n
    then (null, s)
    else if start == all_ones
    then (null, s)
    else (
      extend_sign start * block_size % 2 ^ 64,
      record (set_blocks n start s) { used_blocks = (s.used_blocks + n) % 2 ^ 64 },
    )

pub free_blocks : ℕ → ℕ → PhysicalMemory → PhysicalMemory
free_blocks address n s = record (unset_blocks n (address / block_size % 2 ^ 32) s) {
  used_blocks = (s.used_blocks + 2 ^ 64 - n) % 2 ^ 64;
}
