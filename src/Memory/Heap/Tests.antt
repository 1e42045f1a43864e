-- ===== src/Memory/Heap/Tests.antt =====
-- The heap of kernel/mem.c after `kalloc_init`.
use gecko_os_mac_compatabili.Common.{ℕ, ◌+◌, ◌≡◌, refl, ap, arith, false}
use gecko_os_mac_compatabili.Memory.Heap.{
  Heap, Walked, walked, out_of_fuel, kalloc_init, kmalloc, kfree, memmove, find_free_block,
  create_block, split_block, header, wide,
}
use gecko_os_mac_compatabili.Memory.Heap.Move.{memmove_lem}
use gecko_os_mac_compatabili.Memory.Heap.Cycle.{
  kmalloc-kfree-out_of_fuel, kmalloc-kfree, pointer_of,
}

abbrev blank : Heap
blank = record {
  block_at = λ p. record { size = 0; free = false; next = 0 };
  heap_ptr = 0;
  heap_end = 0;
  head = 0;
}

-- The heap in a result.
abbrev heap_of : Walked (ℕ × Heap) → Heap
heap_of (walked r) = r.1
heap_of out_of_fuel = blank

-- After `p = kmalloc(8); kfree(p); p = kmalloc(8);` the block still heads the list.
abbrev again : Heap
again = heap_of (kmalloc 2 8 (kfree 0x200010 (heap_of (kmalloc 2 8 (kalloc_init blank)))))

again-head : again.head ≡ 0x200000
unfolding kmalloc kfree kalloc_init find_free_block create_block split_block
again-head = refl

again-size : wide (again.block_at 0x200000).size ≡ 8
unfolding kmalloc kfree kalloc_init find_free_block create_block split_block
again-size = refl

-- Then `kfree(p); kmalloc(100);` never ends.
kmalloc-kfree-out_of_fuel_example :
    kmalloc 1000 100 (kfree (again.head + header) again) ≡ out_of_fuel
kmalloc-kfree-out_of_fuel_example =
    kmalloc-kfree-out_of_fuel 1000 100 again (λ e. absurd (omega (arith, e, again-head)))
      (omega (arith, again-size, ap (λ (b : ℕ). wide (again.block_at b).size) again-head))

kmalloc-kfree_example :
    pointer_of (kmalloc 2 5 (kfree (0x200000 + header) again)) ≡ 0x200000 + header
kmalloc-kfree_example =
    kmalloc-kfree 1 5 0x200000 again (λ e. absurd (omega (arith, e))) (omega (arith, again-size))

-- Four bytes, to two addresses further on.
memmove_lem_example : memmove 102 100 4 (λ a. a) (102 + 3) ≡ 103
memmove_lem_example = memmove_lem 102 100 4 3 (λ a. a) (omega arith)
