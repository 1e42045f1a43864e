-- ===== src/Memory/Heap.antt =====
-- kernel/mem.c: the memory functions, and the heap with its list of blocks.
pub mod Move
pub mod Cycle
mod Tests
use gecko_os_mac_compatabili.Common.{
  ℕ, zero, suc, ◌+◌, ◌-◌, ◌/◌, ◌*◌, Bool, true, false, leb, ltb, ◌==◌, ◌&&◌, if◌then◌else◌, ◌%◌,
  ◌^◌,
}

-- The contents of memory, by address.
abbrev pub write : ℕ → ℕ → (ℕ → ℕ) → ℕ → ℕ
write a v m b = if b == a then v else m b

pub memcpy : ℕ → ℕ → ℕ → (ℕ → ℕ) → ℕ → ℕ
memcpy dest src zero m = m
memcpy dest src (suc n) m = memcpy (suc dest) (suc src) n (write dest (m src) m)

-- The loop of `memmove` from the last byte down.
pub copy_down : ℕ → ℕ → ℕ → (ℕ → ℕ) → ℕ → ℕ
copy_down dest src zero m = m
copy_down dest src (suc n) m = copy_down dest src n (write (dest + n) (m (src + n)) m)

pub memmove : ℕ → ℕ → ℕ → (ℕ → ℕ) → ℕ → ℕ
unfolding memcpy copy_down
memmove dest src n m = if ltb dest src then memcpy dest src n m else copy_down dest src n m

pub memset : ℕ → ℕ → ℕ → (ℕ → ℕ) → ℕ → ℕ
memset dest val zero m = m
memset dest val (suc n) m = memset (suc dest) val n (write dest (val % 256) m)

-- The header of a block: `size` is the pattern of an `int`, `next` an address, 0 for NULL.
pub record Block : Type 0 where
  pub size : ℕ
  pub free : Bool
  pub next : ℕ

-- sizeof(block)
abbrev pub header : ℕ
header = 16

pub record Heap : Type 0 where
  pub block_at : ℕ → Block
  pub heap_ptr : ℕ
  pub heap_end : ℕ
  pub head : ℕ

-- A walk along the list that does not end runs out of fuel.
pub data Walked {ℓ} (A : Type ℓ) : Type ℓ where
  walked : A → Walked A
  out_of_fuel : Walked A

abbrev pub align8 : ℕ → ℕ
align8 n = (n + 7) % 2 ^ 64 / 8 * 8

-- An `int` next to an `unsigned long`: the sign is extended.
abbrev pub wide : ℕ → ℕ
wide w = if ltb w (2 ^ 31) then w else w + (2 ^ 64 - 2 ^ 32)

abbrev pub set_block : ℕ → Block → Heap → Heap
set_block a b h = record h { block_at = λ p. if p == a then b else h.block_at p }

pub kalloc_init : Heap → Heap
kalloc_init h = record h { heap_ptr = 0x200000; heap_end = 0x500000; head = 0 }

-- From block `p` on; 0 is NULL.
pub find_free_block : ℕ → ℕ → ℕ → Heap → Walked ℕ
find_free_block zero size p h = out_of_fuel
find_free_block (suc k) size p h = elim (p == 0) [
  | true ↦ walked 0
  | false ↦ elim ((h.block_at p).free && leb size (wide (h.block_at p).size)) [
    | true ↦ walked p
    | false ↦ find_free_block k size (h.block_at p).next h
  ]
]

pub create_block : ℕ → Heap → ℕ × Heap
create_block size h = if ltb h.heap_end ((h.heap_ptr + header + size) % 2 ^ 64) then (0, h) else (
  h.heap_ptr,
  record (set_block h.heap_ptr (record { size = size % 2 ^ 32; free = false; next = 0 }) h) {
    heap_ptr = (h.heap_ptr + align8 ((header + size) % 2 ^ 64)) % 2 ^ 64;
  },
)

pub split_block : ℕ → ℕ → Heap → Heap
split_block b size h =
    let old = h.block_at b in
    let rest = (b + header + size) % 2 ^ 64 in
    if leb (wide old.size) ((size + header) % 2 ^ 64)
    then h
    else set_block b (record old { size = size % 2 ^ 32; next = rest })
        (set_block rest
          (record {
            size = (wide old.size + 2 ^ 64 + 2 ^ 64 - size - header) % 2 ^ 32;
            free = true;
            next = old.next;
          })
          h)

-- The address that is returned, 0 for NULL, and the heap.
pub kmalloc : ℕ → ℕ → Heap → Walked (ℕ × Heap)
unfolding find_free_block create_block split_block
kmalloc k size h =
    let n = align8 size in
    elim (find_free_block k n h.head h) [
      | out_of_fuel ↦ out_of_fuel
      | walked b ↦
          if b == 0
          then (let r = create_block n h in walked (if r.0 == 0 then 0 else r.0 + header, r.1))
          else walked
              (b + header, split_block b n (set_block b (record (h.block_at b) { free = false }) h))
    ]

-- `ptr` is NULL or behind a header.
pub kfree : ℕ → Heap → Heap
kfree ptr h =
    if ptr == 0
    then h
    else record (set_block (ptr - header)
        (record (h.block_at (ptr - header)) { free = true; next = h.head }) h) {
          head = ptr - header;
        }

-- The loop of `combine_blocks` from block `b` on.
pub combine_from : ℕ → ℕ → Heap → Walked Heap
combine_from zero b h = out_of_fuel
combine_from (suc k) b h = elim (b == 0) [
  | true ↦ walked h
  | false ↦ elim ((h.block_at b).next == 0) [
    | true ↦ walked h
    | false ↦
        elim ((h.block_at b).next == (b + header + wide (h.block_at b).size) % 2 ^ 64
          && (h.block_at (h.block_at b).next).free) [
            | true ↦ combine_from k b (
                set_block b
                  (record (h.block_at b) {
                    size =
                        (wide (h.block_at b).size
                          + header
                          + wide (h.block_at (h.block_at b).next).size)
                        % 2 ^ 32;
                    next = (h.block_at (h.block_at b).next).next;
                  })
                  h)
            | false ↦ combine_from k (h.block_at b).next h
          ]
  ]
]

pub combine_blocks : ℕ → Heap → Walked Heap
unfolding combine_from
combine_blocks k h = combine_from k h.head h
