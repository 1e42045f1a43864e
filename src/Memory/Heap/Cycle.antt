-- ===== src/Memory/Heap/Cycle.antt =====
-- A block that is freed while it heads the list, and a search that does not end.
use gecko_os_mac_compatabili.Common.{
  ap, ℕ, zero, suc, ◌+◌, ◌-◌, ◌≤◌, ◌<◌, ◌≡◌, ◌≢◌, refl, sym, subst, true, false, leb, ◌==◌, ◌&&◌,
  arith,
}
use gecko_os_mac_compatabili.Memory.Heap.{
  Heap, Walked, walked, out_of_fuel, header, align8, wide, find_free_block, kmalloc, kfree,
}

-- A block too small whose successor is itself.
loop-out_of_fuel :
    (k size b : ℕ) (h : Heap)
    → b ≢ 0
    → (h.block_at b).next ≡ b
    → wide (h.block_at b).size < size
    → find_free_block k size b h ≡ out_of_fuel
unfolding find_free_block
loop-out_of_fuel zero size b h n e l = refl
loop-out_of_fuel (suc k) size b h n e l =
    let some_block : (b == 0) ≡ false = ground (arith, n) in
    let small : ((h.block_at b).free && leb size (wide (h.block_at b).size)) ≡ false =
      ground (arith, l) in
    rw (some_block, small, e, find_free_block) (loop-out_of_fuel k size b h n e l)

-- The heap after `kfree`: the block heads the list, is free, and is followed by the former head.
record Freed (b : ℕ) (h t : Heap) : Type 0 where
  head : t.head ≡ b
  next : (t.block_at b).next ≡ h.head
  size : (t.block_at b).size ≡ (h.block_at b).size
  free : (t.block_at b).free ≡ true

kfree-Freed : (b : ℕ) (h : Heap) → Freed b h (kfree (b + header) h)
unfolding kfree
kfree-Freed b h =
    let pointer : (b + header == 0) ≡ false = ground arith in
    let back : b + header - header ≡ b = omega arith in
    let here : (b == b) ≡ true = ground arith in
    record {
      head = rw (pointer, back, kfree) refl;
      next = rw (pointer, back, here, kfree) refl;
      size = rw (pointer, back, here, kfree) refl;
      free = rw (pointer, back, here, kfree) refl;
    }

-- When the block that heads the list is freed, as it is when `kmalloc` has taken it again, a
-- request for more than its size never ends, whatever the fuel.
pub kmalloc-kfree-out_of_fuel :
    (k size : ℕ) (h : Heap)
    → h.head ≢ 0
    → wide (h.block_at h.head).size < align8 size
    → kmalloc k size (kfree (h.head + header) h) ≡ out_of_fuel
unfolding kmalloc
kmalloc-kfree-out_of_fuel k size h n l =
    let t : Heap = kfree (h.head + header) h in
    let f : Freed h.head h t = kfree-Freed h.head h in
    let endless : find_free_block k (align8 size) t.head t ≡ out_of_fuel =
      subst (λ (p : ℕ). find_free_block k (align8 size) p t ≡ out_of_fuel) (sym f.head)
        (loop-out_of_fuel k (align8 size) h.head t n f.next (omega (arith, ap wide f.size))) in
    rw (endless, kmalloc) refl

-- The pointer that an allocation returned.
abbrev pub pointer_of : Walked (ℕ × Heap) → ℕ
pointer_of (walked r) = r.0
pointer_of out_of_fuel = 0

first-walked :
    (k size b : ℕ) (h : Heap)
    → (b == 0) ≡ false
    → ((h.block_at b).free && leb size (wide (h.block_at b).size)) ≡ true
    → find_free_block (suc k) size b h ≡ walked b
unfolding find_free_block
first-walked k size b h n fits = rw (n, fits, find_free_block) refl

-- A block that was freed is the first one to be used again, for any size that it holds.
pub kmalloc-kfree :
    (k size b : ℕ) (h : Heap)
    → b ≢ 0
    → align8 size ≤ wide (h.block_at b).size
    → pointer_of (kmalloc (suc k) size (kfree (b + header) h)) ≡ b + header
unfolding kmalloc
kmalloc-kfree k size b h n l =
    let t : Heap = kfree (b + header) h in
    let f : Freed b h t = kfree-Freed b h in
    let some_block : (b == 0) ≡ false = ground (arith, n) in
    let fits : ((t.block_at b).free && leb (align8 size) (wide (t.block_at b).size)) ≡ true =
      ground (arith, f.free, ap wide f.size, l) in
    let found : find_free_block (suc k) (align8 size) t.head t ≡ walked b =
      subst (λ (p : ℕ). find_free_block (suc k) (align8 size) p t ≡ walked b) (sym f.head)
        (first-walked k (align8 size) b t some_block fits) in
    rw (found, some_block, kmalloc) refl
