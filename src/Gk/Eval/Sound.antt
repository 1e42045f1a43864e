-- ===== src/Gk/Eval/Sound.antt =====
-- What the evaluation of a child keeps, when that of every node keeps the bounds.
use gecko_os_mac_compatabili.Common.{
  ℕ, zero, suc, ◌≤◌, ◌<◌, refl, ap, sym, subst, Bool, List, [], ◌∷◌, none, some, arith, length,
  Bool-cases, inl, inr, get_elem?,
}
use gecko_os_mac_compatabili.Gk.Token.{TokenType, tok_minus, tok_not}
use gecko_os_mac_compatabili.Gk.Ast.{Node, ◌is◌}
use gecko_os_mac_compatabili.Gk.Ast.Grown.{AllBelow, AllDone, IsDone}
use gecko_os_mac_compatabili.Gk.Value.{Value, val_int, val_str, val_bool, val_none}
use gecko_os_mac_compatabili.Gk.Store.{State, ran, bad_read, ◌>>=◌, Result, has_error, set_var}
use gecko_os_mac_compatabili.Gk.Store.Sound.{
  HasLong, Sat, Sat-bind, Sat-map, IsSound, Kept, Keeps, Kept-trans, Keeps-from, set_var-Kept,
}
use gecko_os_mac_compatabili.Gk.Eval.{
  Evals, node_of, child, unless_error, eval_child, eval_assign, apply_unary, eval_unop,
}

-- A change that touches no bound.
pub same_bounds : (s : State) → IsSound s → Kept s s
same_bounds s h = record { sound = h; same_nodes = refl; same_depth = refl; same_outside = refl }

get_elem-Below :
    (L : Type 0) (b : ℕ) (cs : List ℕ) (i : ℕ)
    → AllBelow b cs
    → i < length cs
    → Sat L (λ c. c < b) (elim (get_elem? cs i) [ none ↦ bad_read | some c ↦ ran c ])
get_elem-Below L b [] i a h = absurd (omega arith)
get_elem-Below L b (c ∷ cs) zero a h = a.0
get_elem-Below L b (c ∷ cs) (suc i) a h = get_elem-Below L b cs i a.1 (omega arith)

get_elem-Done :
    {L : Type 0} (b : ℕ) (ns : List Node) (i : ℕ)
    → AllDone b ns
    → i < length ns
    → (HasLong ns → L)
    → Sat L
        (λ (n : Node). IsDone b n × (64 ≤ length n.str_val → L))
        (elim (get_elem? ns i) [ none ↦ bad_read | some n ↦ ran n ])
get_elem-Done b [] i a h g = absurd (omega arith)
get_elem-Done b (n ∷ ns) zero a h g = (a.0, λ l. g (inl l))
get_elem-Done b (n ∷ ns) (suc i) a h g = get_elem-Done b ns i a.1 (omega arith) (λ l. g (inr l))

child-Below :
    (L : Type 0) (b : ℕ) (n : Node) (i : ℕ)
    → IsDone b n
    → i < length n.children
    → Sat L (λ c. c < b) (child n i)
child-Below L b n i d h = get_elem-Below L b n.children i d.below h

-- A node of the state is complete, and its text is too long for a name only if some node's is.
pub node_of-Done :
    (s : State) (i : ℕ)
    → IsSound s
    → i < length s.nodes
    → Sat
        (HasLong s.nodes)
        (λ (n : Node). IsDone (length s.nodes) n × (64 ≤ length n.str_val → HasLong s.nodes))
        (node_of s i)
node_of-Done s i h l = get_elem-Done (length s.nodes) s.nodes i h.tree l (λ e. e)

-- A variable is set in state `t`, which came from `s`.
pub set_var-Keeps :
    (s t : State) (name : List ℕ) (val : Value)
    → Kept s t
    → (64 ≤ length name → HasLong s.nodes)
    → Sat (HasLong s.nodes) (λ (r : Bool × State). Kept s r.1) (set_var t name val)
set_var-Keeps s t name val k g =
    Sat-map _ (λ (r : Bool × State). Kept t r.1) (λ r. Kept s r.1) (set_var t name val)
      (subst HasLong k.same_nodes)
      (set_var-Kept t name val k.sound (λ l. subst HasLong (sym k.same_nodes) (g l)))
      (λ r. Kept-trans s t r.1 k)

-- What evaluates a nested node keeps the bounds.
abbrev pub Preserves : Evals → Type 0
Preserves ev = (i : ℕ) (s : State) → IsSound s → i < length s.nodes → Keeps s (ev i s)

module _ (ev : Evals) (nested : Preserves ev) where
  -- A node is evaluated in state `t`, which came from `s`.
  pub next-Keeps : (s t : State) (c : ℕ) → Kept s t → c < length s.nodes → Keeps s (ev c t)
  next-Keeps s t c k l =
      Keeps-from s t (ev c t) k (nested c t k.sound (omega (arith, ap length k.same_nodes)))

  pub next_then-Keeps :
      (s t : State) (c : ℕ) (k : Value × State → Result)
      → Kept s t
      → c < length s.nodes
      → ((r : Value × State) → Kept s r.1 → Keeps s (k r))
      → Keeps s (ev c t >>= k)
  next_then-Keeps s t c k h l f =
      Sat-bind _ (λ r. Kept s r.1) (λ r. Kept s r.1) (ev c t) k (next-Keeps s t c h l) f

  pub unless_error-Keeps :
      (s : State) (k : Value → State → Result) (r : Value × State)
      → Kept s r.1
      → ((v : Value) (t : State) → Kept s t → Keeps s (k v t))
      → Keeps s (unless_error k r)
  unless_error-Keeps s k r h f = elim (Bool-cases (has_error r.1)) [
    | inl failed ↦ rw failed h
    | inr fine ↦ rw fine (f r.0 r.1 h)
  ]

  pub child_then-Keeps :
      (s : State) (n : Node) (i : ℕ) (k : ℕ → Result)
      → IsDone (length s.nodes) n
      → i < length n.children
      → ((c : ℕ) → c < length s.nodes → Keeps s (k c))
      → Keeps s (child n i >>= k)
  child_then-Keeps s n i k d l f =
      Sat-bind _ (λ c. c < length s.nodes) (λ r. Kept s r.1) (child n i) k
        (child-Below _ (length s.nodes) n i d l) f

  pub eval_child-Keeps :
      (s t : State) (n : Node) (i : ℕ) (k : Value → State → Result)
      → Kept s t
      → IsDone (length s.nodes) n
      → i < length n.children
      → ((v : Value) (u : State) → Kept s u → Keeps s (k v u))
      → Keeps s (eval_child ev n i t k)
  eval_child-Keeps s t n i k h d l f =
      child_then-Keeps s n i (λ c. ev c t >>= unless_error k) d l
        (λ c b. next_then-Keeps s t c (unless_error k) h b (λ r o. unless_error-Keeps s k r o f))

  pub eval_assign-Keeps :
      (s : State) (n : Node)
      → IsSound s
      → IsDone (length s.nodes) n
      → (64 ≤ length n.str_val → HasLong s.nodes)
      → 1 ≤ length n.children
      → Keeps s (eval_assign ev n s)
  unfolding eval_assign
  eval_assign-Keeps s n h d g l =
      eval_child-Keeps s s n 0 _ (same_bounds s h) d (omega arith) (λ v t k.
        Sat-bind _ (λ r. Kept s r.1) (λ r. Kept s r.1) (set_var t n.str_val v) _
          (set_var-Keeps s t n.str_val v k g) (λ r o. o))

  apply_unary-Keeps :
      (s t : State) (op : TokenType) (v : Value) → Kept s t → Keeps s (apply_unary op v t)
  apply_unary-Keeps s t op v k = elim (Bool-cases (op is tok_minus)) [
    | inl minus ↦ rw minus (negated v)
    | inr no_minus ↦ elim (Bool-cases (op is tok_not)) [
      | inl negation ↦ rw (no_minus, negation) k
      | inr other ↦ rw (no_minus, other) k
    ]
  ]
    where
      negated : (v : Value) → Keeps s (apply_unary tok_minus v t)
      negated (val_int x) = k
      negated (val_str x) = k
      negated (val_bool x) = k
      negated val_none = k

  pub eval_unop-Keeps :
      (s : State) (n : Node)
      → IsSound s
      → IsDone (length s.nodes) n
      → 1 ≤ length n.children
      → Keeps s (eval_unop ev n s)
  unfolding eval_unop
  eval_unop-Keeps s n h d l =
      eval_child-Keeps s s n 0 (apply_unary n.op) (same_bounds s h) d (omega arith)
        (λ v t k. apply_unary-Keeps s t n.op v k)
