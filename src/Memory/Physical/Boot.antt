-- ===== src/Memory/Physical/Boot.antt =====
-- The state after the manager is set up and regions are released or reserved.
use gecko_os_mac_compatabili.Common.{
  ℕ, zero, suc, ◌+◌, ◌-◌, ◌*◌, ◌/◌, ◌%◌, ◌^◌, ◌≤◌, ◌<◌, ◌≡◌, true, false, not, arith, ltb, ◌==◌,
  ◌&&◌, if◌then◌else◌, min,
}
use gecko_os_mac_compatabili.Common.Bits.{bit-fill}
use gecko_os_mac_compatabili.Memory.Physical.{
  PhysicalMemory, block_size, block_free, fill_word, initialize_memory_manager, release_region,
  initialize_memory_region, reserve_region, deinitialize_memory_region, set_block, unset_block,
}
use gecko_os_mac_compatabili.Memory.Physical.Blocks.{
  within, block_free-bit, block_free-set_block, block_free-unset_block,
}

-- `memset` marks the blocks of the bytes that it fills, and leaves the rest of memory alone.
block_free-manager :
    (memory : ℕ → ℕ) (size c : ℕ)
    → block_free (initialize_memory_manager memory size).memory_map c
      ≡ (if ltb c (size / block_size / 8 * 8) then false else block_free memory c)
unfolding initialize_memory_manager fill_word
block_free-manager memory size c = ground (
  arith,
  block_free-bit (initialize_memory_manager memory size).memory_map c,
  block_free-bit memory c,
  bit-fill (8 * min 4 (size / block_size / 8 - 4 * (c / 32))) (memory (c / 32)) (c % 32),
)

block_free-release_region :
    (n b : ℕ) (s : PhysicalMemory) (c : ℕ)
    → b + n ≤ 2 ^ 32
    → block_free (release_region n b s).memory_map c
      ≡ (if within b n c then true else block_free s.memory_map c)
unfolding release_region
block_free-release_region zero b s c h = ground arith
block_free-release_region (suc n) b s c h = ground (
  arith,
  block_free-release_region n (b + 1)
      (record (unset_block s (b % 2 ^ 32)) {
        used_blocks = ((unset_block s (b % 2 ^ 32)).used_blocks + 2 ^ 64 - 1) % 2 ^ 64;
      })
      c (omega arith),
  block_free-unset_block s (b % 2 ^ 32) c,
)

block_free-reserve_region :
    (n b : ℕ) (s : PhysicalMemory) (c : ℕ)
    → b + n ≤ 2 ^ 32
    → block_free (reserve_region n b s).memory_map c
      ≡ (if within b n c then false else block_free s.memory_map c)
unfolding reserve_region
block_free-reserve_region zero b s c h = ground arith
block_free-reserve_region (suc n) b s c h = ground (
  arith,
  block_free-reserve_region n (b + 1)
      (record (set_block s (b % 2 ^ 32)) {
        used_blocks = ((set_block s (b % 2 ^ 32)).used_blocks + 1) % 2 ^ 64;
      })
      c (omega arith),
  block_free-set_block s (b % 2 ^ 32) c,
)

-- After the manager is set up, one region is released and another is reserved (with all their
-- blocks below 2^32), a block of the bytes that the map's `memset` filled is free exactly if it
-- lies in the first region, not in the second, and is not block 0.
pub block_free-boot :
    (memory : ℕ → ℕ) (size base len hole hole_len c : ℕ)
    → base / block_size + len / block_size ≤ 2 ^ 32
    → hole / block_size + hole_len / block_size ≤ 2 ^ 32
    → c < size / block_size / 8 * 8
    → block_free
        (deinitialize_memory_region hole hole_len
          (initialize_memory_region base len (initialize_memory_manager memory size))).memory_map
        c
      ≡ (within (base / block_size) (len / block_size) c
          && not (within (hole / block_size) (hole_len / block_size) c)
          && not (c == 0))
unfolding deinitialize_memory_region initialize_memory_region
block_free-boot memory size base len hole hole_len c p q l =
    let s = initialize_memory_manager memory size in
    let t = release_region (len / block_size) (base / block_size) s in
    ground (
      arith,
      block_free-reserve_region (hole_len / block_size) (hole / block_size) (set_block t 0) c q,
      block_free-set_block t 0 c,
      block_free-release_region (len / block_size) (base / block_size) s c p,
      block_free-manager memory size c,
    )

-- Releasing a region takes its blocks off the count, reserving one adds them.
used_blocks-release_region :
    (n b : ℕ) (s : PhysicalMemory)
    → n ≤ s.used_blocks
    → s.used_blocks < 2 ^ 64
    → (release_region n b s).used_blocks + n ≡ s.used_blocks
unfolding release_region unset_block
used_blocks-release_region zero b s h l = omega arith
used_blocks-release_region (suc n) b s h l = omega (
  arith,
  used_blocks-release_region n (b + 1)
      (record (unset_block s (b % 2 ^ 32)) {
        used_blocks = ((unset_block s (b % 2 ^ 32)).used_blocks + 2 ^ 64 - 1) % 2 ^ 64;
      })
      (omega arith) (omega arith),
)
