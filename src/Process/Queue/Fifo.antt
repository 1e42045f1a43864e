-- ===== src/Process/Queue/Fifo.antt =====
-- The ring is a first-in-first-out queue of at most 15 processes.
use gecko_os_mac_compatabili.Common.{
  ℕ, zero, suc, ◌+◌, ◌-◌, ◌/◌, ◌%◌, ◌^◌, ◌≤◌, ◌<◌, ◌≡◌, inl, inr, refl, ap, ◌∙◌, sym, true, false,
  List, [], ◌∷◌, ◌++◌, Option, none, some, ◌==◌, if◌then◌else◌, arith, length, Bool-cases,
}
use gecko_os_mac_compatabili.Common.Bits.{bit_and-odd, bit_and-three}
use gecko_os_mac_compatabili.Process.Queue.{
  Queue, Status, done, failed, next_slot, enqueue_in, dequeue,
}

pub record IsQueue (q : Queue) : Type 0 where
  pub head_fits : q.head < 16
  pub tail_fits : q.tail < 16

pub count : Queue → ℕ
count q = (q.tail + 16 - q.head) % 16

-- `n` slots from slot `i` on, round the end.
pub slots : ℕ → ℕ → (ℕ → ℕ) → List ℕ
slots zero i d = []
slots (suc n) i d = d i ∷ slots n ((i + 1) % 16) d

-- The processes in the order in which they leave.
pub contents : Queue → List ℕ
unfolding slots count
contents q = slots (count q) q.head q.data_at

next_slot_lem : (i : ℕ) → i < 16 → next_slot i ≡ (i + 1) % 16
unfolding next_slot
next_slot_lem i h = omega (
  arith,
  bit_and-odd ((i + 1) % 2 ^ 32) 7,
  bit_and-odd ((i + 1) % 2 ^ 32 / 2) 3,
  bit_and-three ((i + 1) % 2 ^ 32 / 2 / 2),
)

length-slots : (n i : ℕ) (d : ℕ → ℕ) → length (slots n i d) ≡ n
unfolding slots
length-slots zero i d = refl
length-slots (suc n) i d = ap suc (length-slots n ((i + 1) % 16) d)

-- A write to a slot that is not among them.
slots-store :
    (n i tail v : ℕ) (d : ℕ → ℕ)
    → i < 16
    → tail < 16
    → n ≤ (tail + 16 - i) % 16
    → slots n i (λ j. if tail == j then v else d j) ≡ slots n i d
unfolding slots
slots-store zero i tail v d p q h = refl
slots-store (suc n) i tail v d p q h =
    let other : (tail == i) ≡ false = ground arith in
    rw (other, slots-store n ((i + 1) % 16) tail v d (omega arith) q (omega arith))

slots-snoc :
    (n i : ℕ) (d : ℕ → ℕ) → i < 16 → slots (suc n) i d ≡ slots n i d ++ (d ((i + n) % 16) ∷ [])
unfolding slots
slots-snoc zero i d h = ap (λ (j : ℕ). d j ∷ []) (omega arith)
slots-snoc (suc n) i d h =
    ap (λ (p : List ℕ). d i ∷ p) (slots-snoc n ((i + 1) % 16) d (omega arith))
    ∙ ap (λ (j : ℕ). d i ∷ (slots n ((i + 1) % 16) d ++ (d j ∷ []))) (omega arith)

-- What `enqueue` does to the processes in the queue.
abbrev pub Enqueued : Queue → ℕ → Status × Queue → Type 0
Enqueued q v (failed, t) = (length (contents q) ≡ 15) × (t ≡ q)
Enqueued q v (done, t) =
    (length (contents q) < 15) × (contents t ≡ contents q ++ (v ∷ [])) × IsQueue t

enqueued :
    (q : Queue) (v : ℕ)
    → IsQueue q
    → (next_slot q.tail == q.head) ≡ false
    → Enqueued q v (
      done,
      record q { data_at = λ i. if q.tail == i then v else q.data_at i; tail = next_slot q.tail },
    )
unfolding contents count
enqueued q v w room =
    let next : next_slot q.tail ≡ (q.tail + 1) % 16 = next_slot_lem q.tail w.tail_fits in
    let d : ℕ → ℕ = λ i. if q.tail == i then v else q.data_at i in
    let n : ℕ = (q.tail + 16 - q.head) % 16 in
    let more : (next_slot q.tail + 16 - q.head) % 16 ≡ suc n =
      ground (arith, next, room, w.head_fits, w.tail_fits) in
    let last : (q.head + n) % 16 ≡ q.tail = omega (arith, w.head_fits, w.tail_fits) in
    let here : (q.tail == q.tail) ≡ true = ground arith in
    (
      ground (arith, length-slots n q.head q.data_at, more),
      ap (λ (m : ℕ). slots m q.head d) more
          ∙ slots-snoc n q.head d w.head_fits
          ∙ rw
              (
                last,
                here,
                slots-store n q.head q.tail v q.data_at w.head_fits w.tail_fits (omega arith),
              )
              refl,
      record { head_fits = w.head_fits; tail_fits = omega (arith, next) },
    )

-- `enqueue` on a queue whose head and tail are below 16: it fails and changes nothing exactly if
-- 15 processes are in the queue, and otherwise the process comes last, after those that were in
-- it, and head and tail stay below 16.
pub enqueue_in_refines : (q : Queue) (v : ℕ) → IsQueue q → Enqueued q v (enqueue_in q v)
unfolding enqueue_in contents count
enqueue_in_refines q v w = elim (Bool-cases (next_slot q.tail == q.head)) [
  | inl full ↦ rw full (
    ground (
      arith,
      full,
      next_slot_lem q.tail w.tail_fits,
      length-slots ((q.tail + 16 - q.head) % 16) q.head q.data_at,
      w.head_fits,
      w.tail_fits,
    ),
    refl,
  )
  | inr room ↦ rw room (enqueued q v w room)
]

-- What `dequeue` does.
abbrev pub Dequeued : Queue → Option ℕ × Queue → Type 0
Dequeued q (none, t) = (contents q ≡ []) × (t ≡ q)
Dequeued q (some p, t) = (contents q ≡ p ∷ contents t) × IsQueue t

-- `dequeue` on a queue whose head and tail are below 16: it returns NULL and changes nothing if
-- the queue is empty, and otherwise it returns the first process and leaves the others in their
-- order, with head and tail below 16.
pub dequeue_refines : (q : Queue) → IsQueue q → Dequeued q (dequeue q)
unfolding dequeue contents count
dequeue_refines q w = elim (Bool-cases (q.head == q.tail)) [
  | inl same ↦
      let nothing : (q.tail + 16 - q.head) % 16 ≡ 0 = ground (arith, same, w.head_fits) in
      rw same (rw (nothing, slots), refl)
  | inr other ↦
      let next : next_slot q.head ≡ (q.head + 1) % 16 = next_slot_lem q.head w.head_fits in
      let n : ℕ = (q.tail + 16 - next_slot q.head) % 16 in
      let more : (q.tail + 16 - q.head) % 16 ≡ suc n =
        ground (arith, next, other, w.head_fits, w.tail_fits) in
      rw other (
        rw (more, slots) (ap (λ (i : ℕ). q.data_at q.head ∷ slots n i q.data_at) (sym next)),
        record { head_fits = omega (arith, next); tail_fits = w.tail_fits },
      )
]
