-- ===== src/Net/Udp/Bindings.antt =====
-- The binding table is a bounded map from ports to handlers.
use gecko_os_mac_compatabili.Common.{
  ℕ, suc, ◌≡◌, ◌≢◌, ◌⊎◌, inl, inr, refl, ap, Bool, true, false, List, [], ◌∷◌, none, some, ◌==◌,
  ◌&&◌, if◌then◌else◌, arith, length, Bool-cases, Option-cases,
}
use gecko_os_mac_compatabili.Net.Host.{Binding, Handler, no_handler}
use gecko_os_mac_compatabili.Net.Udp.{
  is_set, rebind, bind_free, bind_table, unbind_table, find_handler,
}

-- Every slot holds a handler.
pub all_set : List Binding → Bool
all_set [] = true
all_set (b ∷ bs) = is_set b.handler && all_set bs

-- A slot with no handler has port 0, and no two handlers are bound to one port.
abbrev pub IsTable : List Binding → Type 0
IsTable [] = Unit {0}
IsTable (b ∷ bs) =
    (is_set b.handler ≡ false → b.port ≡ 0)
    × (is_set b.handler ≡ true → find_handler b.port bs ≡ no_handler)
    × IsTable bs

-- `new` is `old` with `f` bound to the port.
abbrev pub Bound : ℕ → Handler → List Binding → List Binding → Type 0
Bound port f old new =
    (length new ≡ length old)
    × ((j : ℕ) → find_handler j new ≡ (if port == j then f else find_handler j old))

find_handler-none :
    (port : ℕ) (f : Handler) (bs : List Binding)
    → rebind port f bs ≡ none
    → find_handler port bs ≡ no_handler
unfolding rebind find_handler
find_handler-none port f [] h = refl
find_handler-none port f (b ∷ bs) h = ground (arith, find_handler-none port f bs)

rebind-Bound :
    (port : ℕ) (f : Handler) (bs new : List Binding)
    → is_set f ≡ true
    → rebind port f bs ≡ some new
    → Bound port f bs new
unfolding rebind find_handler
rebind-Bound port f [] new s h = cc
rebind-Bound port f (b ∷ bs) new s h = elim (Bool-cases (is_set b.handler && b.port == port)) [
  | inl hit ↦
      let same : new ≡ record b { handler = f } ∷ bs = ground (arith, hit) in
      rw same (refl, λ j. ground (arith, hit))
  | inr other ↦ elim (Option-cases (rebind port f bs)) [
    | inl miss ↦ absurd (ground (arith, other, miss))
    | inr (rest, found) ↦
        let same : new ≡ b ∷ rest = ground (arith, other, found) in
        let (size, answers) = rebind-Bound port f bs rest s found in
        rw same (ap suc size, λ j. ground (arith, answers j))
  ]
]

bind_free-Bound :
    (port : ℕ) (f : Handler) (bs new : List Binding)
    → is_set f ≡ true
    → find_handler port bs ≡ no_handler
    → bind_free port f bs ≡ some new
    → Bound port f bs new
unfolding bind_free find_handler
bind_free-Bound port f [] new s u h = cc
bind_free-Bound port f (b ∷ bs) new s u h = elim (Bool-cases (is_set b.handler)) [
  | inr hit ↦
      let same : new ≡ record { port = port; handler = f } ∷ bs = ground (arith, hit) in
      rw same (refl, λ j. ground (arith, hit))
  | inl other ↦ elim (Option-cases (bind_free port f bs)) [
    | inl miss ↦ absurd (ground (arith, other, miss))
    | inr (rest, found) ↦
        let same : new ≡ b ∷ rest = ground (arith, other, found) in
        let unbound : find_handler port bs ≡ no_handler = ground (arith, other) in
        let (size, answers) = bind_free-Bound port f bs rest s unbound found in
        rw same (ap suc size, λ j. ground (arith, answers j))
  ]
]

bind_free-none :
    (port : ℕ) (f : Handler) (bs : List Binding) → bind_free port f bs ≡ none → all_set bs ≡ true
unfolding bind_free all_set
bind_free-none port f [] h = refl
bind_free-none port f (b ∷ bs) h = ground (arith, bind_free-none port f bs)

-- Binding a handler that is not null to a port. If it succeeds, the table keeps its size, the
-- port has the new handler and every other port the one it had; it fails only if the port has no
-- handler and every slot is taken.
pub bind_table_lem :
    (port : ℕ) (f : Handler) (bs : List Binding)
    → is_set f ≡ true
    → ((new : List Binding) × (bind_table port f bs ≡ some new) × Bound port f bs new)
      ⊎ ((bind_table port f bs ≡ none) × (find_handler port bs ≡ no_handler) × (all_set bs ≡ true))
unfolding bind_table
bind_table_lem port f bs s = elim (Option-cases (rebind port f bs)) [
  | inr (new, found) ↦ inl (new, rw (found, bind_table), rebind-Bound port f bs new s found)
  | inl miss ↦ elim (Option-cases (bind_free port f bs)) [
    | inr (new, found) ↦ inl (
      new,
      rw (miss, found, bind_table),
      bind_free-Bound port f bs new s (find_handler-none port f bs miss) found,
    )
    | inl full ↦ inr (
      rw (miss, full, bind_table),
      find_handler-none port f bs miss,
      bind_free-none port f bs full,
    )
  ]
]

-- Unbinding a port other than 0 in a well-formed table: the port has no handler afterwards, and
-- every other port has the one it had.
pub find_handler-unbind_table :
    (port : ℕ) (bs : List Binding) (j : ℕ)
    → port ≢ 0
    → IsTable bs
    → find_handler j (unbind_table port bs) ≡ (if port == j then no_handler else find_handler j bs)
unfolding unbind_table find_handler
find_handler-unbind_table port [] j n t = ground arith
find_handler-unbind_table port (b ∷ bs) j n t = elim (Bool-cases (is_set b.handler)) [
  | inl set ↦ ground (arith, t.1 set, set, find_handler-unbind_table port bs j n t.2)
  | inr free ↦ ground (arith, t.0 free, free, find_handler-unbind_table port bs j n t.2)
]

rebind-IsTable :
    (port : ℕ) (f : Handler) (bs new : List Binding)
    → is_set f ≡ true
    → rebind port f bs ≡ some new
    → IsTable bs
    → IsTable new
unfolding rebind
rebind-IsTable port f [] new s h t = cc
rebind-IsTable port f (b ∷ bs) new s h t = elim (Bool-cases (is_set b.handler && b.port == port)) [
  | inl hit ↦
      let same : new ≡ record b { handler = f } ∷ bs = ground (arith, hit) in
      let set : is_set b.handler ≡ true = ground (arith, hit) in
      rw same (λ u. cc, λ _. t.1 set, t.2)
  | inr other ↦ elim (Option-cases (rebind port f bs)) [
    | inl miss ↦ absurd (ground (arith, other, miss))
    | inr (rest, found) ↦
        let same : new ≡ b ∷ rest = ground (arith, other, found) in
        let answers = (rebind-Bound port f bs rest s found).1 b.port in
        rw same (
          t.0,
          λ set. ground (arith, answers, other, set, t.1 set),
          rebind-IsTable port f bs rest s found t.2,
        )
  ]
]

bind_free-IsTable :
    (port : ℕ) (f : Handler) (bs new : List Binding)
    → is_set f ≡ true
    → find_handler port bs ≡ no_handler
    → bind_free port f bs ≡ some new
    → IsTable bs
    → IsTable new
unfolding bind_free find_handler
bind_free-IsTable port f [] new s u h t = cc
bind_free-IsTable port f (b ∷ bs) new s u h t = elim (Bool-cases (is_set b.handler)) [
  | inr hit ↦
      let same : new ≡ record { port = port; handler = f } ∷ bs = ground (arith, hit) in
      rw same (λ v. cc, λ _. ground (arith, hit), t.2)
  | inl other ↦ elim (Option-cases (bind_free port f bs)) [
    | inl miss ↦ absurd (ground (arith, other, miss))
    | inr (rest, found) ↦
        let same : new ≡ b ∷ rest = ground (arith, other, found) in
        let unbound : find_handler port bs ≡ no_handler = ground (arith, other) in
        let answers = (bind_free-Bound port f bs rest s unbound found).1 b.port in
        rw same (
          t.0,
          λ set. ground (arith, answers, other, t.1 set),
          bind_free-IsTable port f bs rest s unbound found t.2,
        )
  ]
]

-- Binding a handler that is not null, where it succeeds, keeps a table of bindings well formed:
-- an empty slot has port 0 and no two slots with a handler have one port.
pub bind_table-IsTable :
    (port : ℕ) (f : Handler) (bs new : List Binding)
    → is_set f ≡ true
    → bind_table port f bs ≡ some new
    → IsTable bs
    → IsTable new
unfolding bind_table
bind_table-IsTable port f bs new s h t = elim (Option-cases (rebind port f bs)) [
  | inr (rest, found) ↦ rebind-IsTable port f bs new s (ground (arith, found)) t
  | inl miss ↦
      bind_free-IsTable port f bs new s (find_handler-none port f bs miss) (ground (arith, miss)) t
]

-- Unbinding a port other than 0 keeps a table of bindings well formed.
unbind_table-IsTable :
    (port : ℕ) (bs : List Binding) → port ≢ 0 → IsTable bs → IsTable (unbind_table port bs)
unfolding unbind_table
unbind_table-IsTable port [] n t = tt
unbind_table-IsTable port (b ∷ bs) n t = elim (Bool-cases (b.port == port)) [
  | inl hit ↦ rw hit (λ _. refl, λ v. cc, t.2)
  | inr other ↦ rw other (
    t.0,
    λ set. ground (arith, other, find_handler-unbind_table port bs b.port n t.2, t.1 set),
    unbind_table-IsTable port bs n t.2,
  )
]
