-- ===== src/Gk/Interp/Loops.antt =====
-- Blocks, `if` and loops: they keep the bounds, and read children that are there.
use gecko_os_mac_compatabili.Common.{
  ℕ, zero, suc, ◌≤◌, ◌≡◌, Bool, true, false, not, List, [], ◌∷◌, ◌==◌, ◌||◌, if◌then◌else◌, arith,
  length, Bool-cases, inl, inr, ◌⊎◌,
}
use gecko_os_mac_compatabili.Gk.Ast.{Node}
use gecko_os_mac_compatabili.Gk.Ast.Grown.{AllBelow, IsDone}
use gecko_os_mac_compatabili.Gk.Value.{Value, val_int, val_str, val_bool, val_none, is_truthy}
use gecko_os_mac_compatabili.Gk.Store.{
  State, ran, ◌>>=◌, Result, has_error, Failure, set_var, range_must_be_integer,
  for_requires_integer,
}
use gecko_os_mac_compatabili.Gk.Store.Sound.{HasLong, Sat-bind, IsSound, Kept, Keeps}
use gecko_os_mac_compatabili.Gk.Eval.{Evals, node_of, child, unless_error}
use gecko_os_mac_compatabili.Gk.Eval.Sound.{
  same_bounds, node_of-Done, set_var-Keeps, Preserves, next-Keeps, next_then-Keeps,
  unless_error-Keeps, child_then-Keeps, eval_child-Keeps,
}
use gecko_os_mac_compatabili.Gk.Interp.{
  eval_block, eval_if, after_body, eval_while, eval_rounds, rounds_to, is_range, eval_for,
}

after_body-Kept : (s t : State) → Kept s t → Kept s (after_body t).1
after_body-Kept s t k = elim (Bool-cases (has_error t || t.returning)) [
  | inl done ↦ rw done k
  | inr more ↦ elim (Bool-cases t.breaking) [
    | inl out ↦ rw (more, out) k
    | inr again ↦ rw (more, again) k
  ]
]

module _ (ev : Evals) (nested : Preserves ev) where
  pub eval_block-Keeps :
      (s t : State) (cs : List ℕ) (last : Value)
      → Kept s t
      → AllBelow (length s.nodes) cs
      → Keeps s (eval_block ev cs last t)
  unfolding eval_block
  eval_block-Keeps s t [] last k a = k
  eval_block-Keeps s t (c ∷ cs) last k a = next_then-Keeps ev nested s t c _ k a.0 (λ r o.
      step r o (has_error r.1 || r.1.returning || r.1.breaking || r.1.continuing)
        (eval_block-Keeps s r.1 cs r.0 o a.1))
    where
      step :
          (r : Value × State)
          → Kept s r.1
          → (stop : Bool) → Keeps s (eval_block ev cs r.0 r.1)
          → Keeps s (elim stop [ true ↦ ran r | false ↦ eval_block ev cs r.0 r.1 ])
      step r o true rest = o
      step r o false rest = rest

  pub eval_if-Keeps :
      (s : State) (n : Node)
      → IsSound s
      → IsDone (length s.nodes) n
      → 2 ≤ length n.children
      → Keeps s (eval_if ev n s)
  unfolding eval_if
  eval_if-Keeps s n h d l =
      eval_child-Keeps ev nested s s n 0 _ (same_bounds s h) d (omega arith)
        (λ v t k. branch v t k (is_truthy v) (Bool-cases (length n.children == 3)))
    where
      branch :
          (v : Value) (t : State)
          → Kept s t
          → (truth : Bool) → ((length n.children == 3) ≡ true) ⊎ ((length n.children == 3) ≡ false)
          → Keeps s (
              if truth
              then (child n 1 >>= λ c. ev c t)
              else if length n.children == 3
              then (child n 2 >>= λ c. ev c t)
              else ran (val_none, t))
      branch v t k true e =
          child_then-Keeps ev nested s n 1 _ d (omega arith) (λ c b. next-Keeps ev nested s t c k b)
      branch v t k false (inl three) = rw three (
          child_then-Keeps ev nested s n 2 _ d (ground (arith, three))
            (λ c b. next-Keeps ev nested s t c k b))
      branch v t k false (inr two) = rw two k

  -- After the body of a loop: the end, or another round.
  round-Keeps :
      (s : State) (r : Value × State) (again : Value → State → Result)
      → Kept s r.1
      → ((t : State) → Kept s t → Keeps s (again r.0 t))
      → Keeps s (elim (after_body r.1).0 [
        | true ↦ ran (r.0, (after_body r.1).1)
        | false ↦ again r.0 (after_body r.1).1
      ])
  round-Keeps s r again k f = elim (Bool-cases (after_body r.1).0) [
    | inl done ↦ rw done (after_body-Kept s r.1 k)
    | inr more ↦ rw more (f (after_body r.1).1 (after_body-Kept s r.1 k))
  ]

  pub eval_while-Keeps :
      (k : ℕ) (s t : State) (n : Node) (result : Value)
      → Kept s t
      → IsDone (length s.nodes) n
      → 2 ≤ length n.children
      → Keeps s (eval_while ev k n result t)
  unfolding eval_while
  eval_while-Keeps zero s t n result h d l = tt
  eval_while-Keeps (suc k) s t n result h d l =
      child_then-Keeps ev nested s n 0 _ d (omega arith) (λ c b.
        next_then-Keeps ev nested s t c _ h b (λ v o.
          elim (Bool-cases (has_error v.1 || not (is_truthy v.0))) [
            | inl done ↦ rw (done, eval_while) o
            | inr more ↦
                rw (more, eval_while)
                  (child_then-Keeps ev nested s n 1 _ d (omega arith) (λ e p.
                    next_then-Keeps ev nested s v.1 e _ o p (λ r q.
                      round-Keeps s r (eval_while ev k n) q
                        (λ u w. eval_while-Keeps k s u n r.0 w d l))))
          ]))

  eval_rounds-Keeps :
      (more i : ℕ) (s t : State) (n : Node) (result : Value)
      → Kept s t
      → IsDone (length s.nodes) n
      → (64 ≤ length n.str_val → HasLong s.nodes)
      → 2 ≤ length n.children
      → Keeps s (eval_rounds ev more i n result t)
  unfolding eval_rounds
  eval_rounds-Keeps zero i s t n result h d g l = h
  eval_rounds-Keeps (suc more) i s t n result h d g l =
      Sat-bind _ (λ (r : Bool × State). Kept s r.1) (λ r. Kept s r.1)
        (set_var t n.str_val (val_int i)) _ (set_var-Keeps s t n.str_val (val_int i) h g)
        (λ w o. elim (Bool-cases w.0) [
          | inr failed ↦ rw (failed, eval_rounds) o
          | inl fine ↦
              rw (fine, eval_rounds)
                (child_then-Keeps ev nested s n 1 _ d (omega arith) (λ e p.
                  next_then-Keeps ev nested s w.1 e _ o p (λ r q.
                    round-Keeps s r (eval_rounds ev more (suc i) n) q
                      (λ u v. eval_rounds-Keeps more (suc i) s u n r.0 v d g l))))
        ])

  rounds_to-Keeps :
      (s t : State) (failure : Failure) (n : Node) (v : Value)
      → Kept s t
      → IsDone (length s.nodes) n
      → (64 ≤ length n.str_val → HasLong s.nodes)
      → 2 ≤ length n.children
      → Keeps s (rounds_to failure ev n v t)
  rounds_to-Keeps s t failure n (val_int limit) k d g l =
      eval_rounds-Keeps _ 0 s t n val_none k d g l
  rounds_to-Keeps s t failure n (val_str x) k d g l = k
  rounds_to-Keeps s t failure n (val_bool x) k d g l = k
  rounds_to-Keeps s t failure n val_none k d g l = k

  pub eval_for-Keeps :
      (s : State) (n : Node)
      → IsSound s
      → IsDone (length s.nodes) n
      → (64 ≤ length n.str_val → HasLong s.nodes)
      → 2 ≤ length n.children
      → Keeps s (eval_for ev n s)
  unfolding eval_for
  eval_for-Keeps s n h d g l = child_then-Keeps ev nested s n 0 _ d (omega arith) (λ c b.
      Sat-bind _
        (λ (x : Node). IsDone (length s.nodes) x × (64 ≤ length x.str_val → HasLong s.nodes))
        (λ r. Kept s r.1) (node_of s c) _ (node_of-Done s c h b)
        (λ iter e. elim (Bool-cases (is_range iter.type)) [
          | inr other ↦
              rw (other, eval_for)
                (next_then-Keeps ev nested s s c
                  (unless_error (rounds_to for_requires_integer ev n)) (same_bounds s h) b
                  (λ x k.
                    unless_error-Keeps ev nested s (rounds_to for_requires_integer ev n) x k
                      (λ v t o. rounds_to-Keeps s t for_requires_integer n v o d g l)))
          | inl range ↦ elim (Bool-cases (length iter.children == 0)) [
            | inl alone ↦ rw (range, alone, eval_for) (same_bounds s h)
            | inr argument ↦
                rw (range, argument, eval_for)
                  (eval_child-Keeps ev nested s s iter 0 (rounds_to range_must_be_integer ev n)
                    (same_bounds s h) e.0 (ground (arith, argument))
                    (λ v t o. rounds_to-Keeps s t range_must_be_integer n v o d g l))
          ]
        ]))
