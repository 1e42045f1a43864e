-- ===== src/Memory/Physical/Blocks.antt =====
-- What setting and clearing bits does to the state of every block.
use gecko_os_mac_compatabili.Common.{
  ℕ, zero, suc, ◌+◌, ◌-◌, ◌*◌, ◌/◌, ◌%◌, ◌^◌, ◌≤◌, ◌<◌, ◌≡◌, refl, ap, Bool, true, false, bit_and,
  bit_or, arith, ltb, leb, ◌==◌, ◌&&◌, if◌then◌else◌,
}
use gecko_os_mac_compatabili.Common.Bits.{
  bit, bit-lt, bit-bit_and, bit-bit_or, bit-pow_self, bit-pow_ne, bit-complement, bit_and-pow,
  bit-zero,
}
use gecko_os_mac_compatabili.Memory.Physical.{
  PhysicalMemory, all_ones, set_block, unset_block, block_free, set_blocks, unset_blocks,
}
use native.Mathlib.Nat.{one-le-pow, pow-le-pow_right}

-- The test of the source reads one bit.
test_bit : (w k : ℕ) → (bit_and w (2 ^ k) == 0) ≡ (bit w k == 0)
test_bit w k =
    ground
      (arith, bit_and-pow w k, bit-lt w k, one-le-pow k 2, ap (λ (t : ℕ). t * 2 ^ k) {x = bit w k})

pub block_free-bit : (m : ℕ → ℕ) (b : ℕ) → block_free m b ≡ (bit (m (b / 32)) (b % 32) == 0)
unfolding block_free
block_free-bit m b = test_bit (m (b / 32)) (b % 32)

bit-set : (w j k : ℕ) → bit (bit_or w (2 ^ j)) k ≡ (if j == k then 1 else bit w k)
bit-set w j k = ground (arith, bit-bit_or w (2 ^ j) k, bit-pow_self j, bit-pow_ne j k, bit-lt w k)

pow_lt : (j : ℕ) → j < 32 → 2 ^ j < 2 ^ 32
pow_lt j h = omega (arith, pow-le-pow_right {n = 2} (omega arith) {i = j} {j = 31} (omega arith))

bit-unset :
    (w j k : ℕ)
    → j < 32
    → k < 32
    → bit (bit_and w (all_ones - 2 ^ j)) k ≡ (if j == k then 0 else bit w k)
bit-unset w j k hj hk = ground (
  arith,
  bit-bit_and w (all_ones - 2 ^ j) k,
  bit-complement 32 (2 ^ j) k (pow_lt j hj) hk,
  bit-pow_self j,
  bit-pow_ne j k,
  bit-lt w k,
)

-- `set_block` marks its block as used and no other.
pub block_free-set_block :
    (s : PhysicalMemory) (b c : ℕ)
    → block_free (set_block s b).memory_map c
      ≡ (if b == c then false else block_free s.memory_map c)
unfolding set_block
block_free-set_block s b c = ground (
  arith,
  block_free-bit (set_block s b).memory_map c,
  block_free-bit s.memory_map c,
  bit-set (s.memory_map (b / 32)) (b % 32) (c % 32),
)

-- `unset_block` frees its block and no other.
pub block_free-unset_block :
    (s : PhysicalMemory) (b c : ℕ)
    → block_free (unset_block s b).memory_map c
      ≡ (if b == c then true else block_free s.memory_map c)
unfolding unset_block
block_free-unset_block s b c = ground (
  arith,
  block_free-bit (unset_block s b).memory_map c,
  block_free-bit s.memory_map c,
  bit-unset (s.memory_map (b / 32)) (b % 32) (c % 32) (omega arith) (omega arith),
)

-- `c` is one of the `n` blocks from `b` on.
abbrev pub within : ℕ → ℕ → ℕ → Bool
within b n c = leb b c && ltb c (b + n)

pub block_free-set_blocks :
    (n b : ℕ) (s : PhysicalMemory) (c : ℕ)
    → b + n ≤ 2 ^ 32
    → block_free (set_blocks n b s).memory_map c
      ≡ (if within b n c then false else block_free s.memory_map c)
unfolding set_blocks
block_free-set_blocks zero b s c h = ground arith
block_free-set_blocks (suc n) b s c h = ground (
  arith,
  block_free-set_blocks n (b + 1) (set_block s (b % 2 ^ 32)) c (omega arith),
  block_free-set_block s (b % 2 ^ 32) c,
)

pub block_free-unset_blocks :
    (n b : ℕ) (s : PhysicalMemory) (c : ℕ)
    → b + n ≤ 2 ^ 32
    → block_free (unset_blocks n b s).memory_map c
      ≡ (if within b n c then true else block_free s.memory_map c)
unfolding unset_blocks
block_free-unset_blocks zero b s c h = ground arith
block_free-unset_blocks (suc n) b s c h = ground (
  arith,
  block_free-unset_blocks n (b + 1) (unset_block s (b % 2 ^ 32)) c (omega arith),
  block_free-unset_block s (b % 2 ^ 32) c,
)

-- The test on bit `j` of word `i` is the test on block `i * 32 + j`.
pub block_free-word :
    (m : ℕ → ℕ) (i j : ℕ) → j < 32 → (bit_and (m i) (2 ^ j) == 0) ≡ block_free m (i * 32 + j)
unfolding block_free
block_free-word m i j h =
    let word : (i * 32 + j) / 32 ≡ i = omega arith in
    let index : (i * 32 + j) % 32 ≡ j = omega arith in rw (word, index)

-- A word of ones has no free block.
pub block_free-all_ones :
    (m : ℕ → ℕ) (i j : ℕ) → j < 32 → m i ≡ all_ones → block_free m (i * 32 + j) ≡ false
block_free-all_ones m i j h e = ground (
  arith,
  block_free-word m i j h,
  test_bit (m i) j,
  ap (λ (w : ℕ). bit w j) e,
  bit-complement 32 0 j (omega arith) h,
  bit-zero j,
)

-- The bookkeeping fields are not touched by the marking loops.
pub set_blocks_fields :
    (n b : ℕ) (s : PhysicalMemory)
    → ((set_blocks n b s).max_blocks ≡ s.max_blocks)
      × ((set_blocks n b s).used_blocks ≡ s.used_blocks)
unfolding set_blocks set_block
set_blocks_fields zero b s = (refl, refl)
set_blocks_fields (suc n) b s = set_blocks_fields n (b + 1) (set_block s (b % 2 ^ 32))
