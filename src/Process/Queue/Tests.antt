-- ===== src/Process/Queue/Tests.antt =====
-- The ring of kernel/process/process.c round its end.
use gecko_os_mac_compatabili.Common.{◌≡◌, refl, none, some, arith, ◌+◌}
use gecko_os_mac_compatabili.Process.Queue.{Queue, failed, enqueue_in, enqueue, dequeue}
use gecko_os_mac_compatabili.Process.Queue.Fifo.{
  IsQueue, Enqueued, Dequeued, enqueue_in_refines, dequeue_refines,
}

-- Slots 14, 15 and 0.
abbrev wrapped : Queue
wrapped = record { data_at = λ i. 100 + i; head = 14; tail = 1 }

wrapped-IsQueue : IsQueue wrapped
wrapped-IsQueue = record { head_fits = omega arith; tail_fits = omega arith }

first_out : (dequeue wrapped).0 ≡ some 114
unfolding dequeue
first_out = refl

no_memory : (enqueue none none 5).0 ≡ failed
unfolding enqueue
no_memory = refl

enqueue_in_refines_example : Enqueued wrapped 7 (enqueue_in wrapped 7)
enqueue_in_refines_example = enqueue_in_refines wrapped 7 wrapped-IsQueue

dequeue_refines_example : Dequeued wrapped (dequeue wrapped)
dequeue_refines_example = dequeue_refines wrapped wrapped-IsQueue
