-- ===== src/Process/Queue.antt =====
-- kernel/process/process.c: `Queue`, `enqueue` and `dequeue`, a ring of 16 slots of which one stays
-- empty. A process is its address.
pub mod Fifo
mod Tests
use mathlib.Core.Option
use gecko_os_mac_compatabili.Common.{
  ℕ, ◌+◌, ◌-◌, ◌%◌, ◌^◌, bit_and, Option, none, some, ◌==◌, if◌then◌else◌,
}

abbrev pub max_processes : ℕ
max_processes = 16

pub record Queue : Type 0 where
  pub data_at : ℕ → ℕ
  pub head : ℕ
  pub tail : ℕ

-- A return of 0 or of -1.
pub data Status : Type 0 where
  done failed : Status

-- `(i + 1) & (MAX_PROCESSES - 1)` of an `unsigned int`.
pub next_slot : ℕ → ℕ
next_slot i = bit_and ((i + 1) % 2 ^ 32) (max_processes - 1)

-- `enqueue` from where the queue exists.
pub enqueue_in : Queue → ℕ → Status × Queue
unfolding next_slot
enqueue_in q v =
    let next = next_slot q.tail in
    if next == q.head
    then (failed, q)
    else (done, record q { data_at = λ i. if q.tail == i then v else q.data_at i; tail = next })

-- `memory` is what `kmalloc` gives for a queue that does not exist: the contents of a new block, or
-- none for NULL.
pub enqueue : Option (ℕ → ℕ) → Option Queue → ℕ → Status × Option Queue
unfolding enqueue_in
enqueue memory (some q) v = let (status, after) = enqueue_in q v in (status, some after)
enqueue none none v = (failed, none)
enqueue (some slots) none v =
    let (status, after) = enqueue_in (record { data_at = slots; head = 0; tail = 0 }) v in
    (status, some after)

-- `none` is the return of NULL from an empty queue.
pub dequeue : Queue → Option ℕ × Queue
unfolding next_slot
dequeue q =
    if q.head == q.tail
    then (none, q)
    else (some (q.data_at q.head), record q { head = next_slot q.head })
