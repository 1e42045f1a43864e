-- ===== src/Memory/Physical/Alloc.antt =====
-- `allocate_blocks` hands out free blocks, marks them and nothing else; `free_blocks` undoes it.
use gecko_os_mac_compatabili.Common.{
  ℕ, ◌+◌, ◌-◌, ◌*◌, ◌/◌, ◌%◌, ◌^◌, ◌≤◌, ◌<◌, ◌≡◌, ◌⊎◌, refl, true, false, some, arith, leb, ◌==◌,
  if◌then◌else◌, Bool-cases, inl, inr,
}
use gecko_os_mac_compatabili.Memory.Physical.{
  PhysicalMemory, all_ones, block_size, null, block_free, find_first_free_blocks, set_blocks,
  extend_sign, allocate_blocks, free_blocks,
}
use gecko_os_mac_compatabili.Memory.Physical.Blocks.{
  within, block_free-set_blocks, block_free-unset_blocks, set_blocks_fields,
}
use gecko_os_mac_compatabili.Memory.Physical.Find.{AllFree, Least, find_first_free_blocks-Least}

-- The blocks that the whole words of the map describe.
abbrev pub reach : PhysicalMemory → ℕ
reach s = s.max_blocks / 32 * 32

-- The blocks that the allocator believes to be free.
abbrev pub free_blocks_left : PhysicalMemory → ℕ
free_blocks_left s = (s.max_blocks + 2 ^ 64 - s.used_blocks) % 2 ^ 64

-- What a request of `n` blocks that succeeds with block `b` and address `a` has done.
pub record IsAllocated (n : ℕ) (s : PhysicalMemory) (b a : ℕ) (t : PhysicalMemory) : Type 0 where
  pub address : a ≡ b * block_size
  pub inside : b < reach s
  pub was_free : AllFree s.memory_map n b
  pub marked :
      (c : ℕ)
      → block_free t.memory_map c ≡ (if within b n c then false else block_free s.memory_map c)
  pub counted : t.used_blocks ≡ (s.used_blocks + n) % 2 ^ 64
  pub same_size : t.max_blocks ≡ s.max_blocks

-- Why a request is refused.
abbrev pub Refused : ℕ → PhysicalMemory → Type 0
Refused n s = (free_blocks_left s ≤ n) ⊎ ((c : ℕ) → c < reach s → ¬ (AllFree s.memory_map n c))

abbrev pub Outcome : ℕ → PhysicalMemory → ℕ × PhysicalMemory → Type 0
Outcome n s (a, t) = ((a ≡ null) × (t ≡ s) × Refused n s) ⊎ ((b : ℕ) × IsAllocated n s b a t)

found :
    (n : ℕ) (s : PhysicalMemory) (b : ℕ)
    → n < 2 ^ 31
    → s.max_blocks ≤ 2 ^ 31
    → Least s.memory_map n 0 (reach s) (some b)
    → IsAllocated n s b
        (extend_sign b * block_size % 2 ^ 64)
        (record (set_blocks n b s) { used_blocks = (s.used_blocks + n) % 2 ^ 64 })
unfolding extend_sign
found n s b small h l = record {
  address = ground (arith, l.1);
  inside = l.1;
  was_free = l.2;
  marked = λ c. block_free-set_blocks n b s c (omega (arith, l.1));
  counted = refl;
  same_size = (set_blocks_fields n b s).0;
}

-- `allocate_blocks` for a request of 1 to 2^31 - 1 blocks on a map of at most 2^31 blocks.
-- Either it returns NULL, changes nothing, and the counters leave at most that many blocks or no
-- run of that many free blocks starts in the map; or it returns the address of a run of free
-- blocks that starts in the map, exactly that run is marked as used besides the blocks that
-- were, and the count grows by the request.
pub allocate_blocks_lem :
    (n : ℕ) (s : PhysicalMemory)
    → 0 < n
    → n < 2 ^ 31
    → s.max_blocks ≤ 2 ^ 31
    → Outcome n s (allocate_blocks n s)
unfolding allocate_blocks
allocate_blocks_lem n s pos small h = elim (Bool-cases (leb (free_blocks_left s) n)) [
  | inl full ↦ rw full (inl (refl, refl, inl (ground arith)))
  | inr room ↦ elim (Bool-cases (find_first_free_blocks s n == all_ones)) [
    | inl miss ↦
        rw (room, miss)
          (inl (
            refl,
            refl,
            inr (λ c l. rw (miss) at (find_first_free_blocks-Least s n pos h) c (omega arith) l),
          ))
    | inr hit ↦
        rw (room, hit)
          (inr (
            find_first_free_blocks s n,
            found n s (find_first_free_blocks s n) small h
                (rw hit at (find_first_free_blocks-Least s n pos h)),
          ))
  ]
]

-- `free_blocks` on what a request of fewer than 2^31 blocks was given, on a map of at most 2^31
-- blocks and with a count that does not wrap: every block is free or used as before the request,
-- and the count is what it was.
pub free-allocate :
    (n : ℕ) (s : PhysicalMemory) {b a : ℕ} {t : PhysicalMemory}
    → n < 2 ^ 31
    → s.max_blocks ≤ 2 ^ 31
    → s.used_blocks + n < 2 ^ 64
    → IsAllocated n s b a t
    → ((c : ℕ) → block_free (free_blocks a n t).memory_map c ≡ block_free s.memory_map c)
      × ((free_blocks a n t).used_blocks ≡ s.used_blocks)
unfolding free_blocks
free-allocate n s {b} {a} {t} small h room v = (
  λ c. ground (
    arith,
    v.inside,
    v.address,
    block_free-unset_blocks n (a / block_size % 2 ^ 32) t c (omega (arith, v.inside, v.address)),
    v.marked c,
    λ (p : b ≤ c) (q : c < b + n). v.was_free c p q,
  ),
  omega (arith, v.counted),
)

-- Two requests that succeed, one after the other, get disjoint runs of blocks.
allocate-allocate_disjoint :
    (n m : ℕ) {s t u : PhysicalMemory} {b a c d : ℕ}
    → IsAllocated n s b a t
    → IsAllocated m t c d u
    → (x : ℕ) → within b n x ≡ true
    → within c m x ≡ false
allocate-allocate_disjoint n m {b = b} {c = c} v w x h =
    ground (arith, v.marked x, λ (p : c ≤ x) (q : x < c + m). w.was_free x p q)
