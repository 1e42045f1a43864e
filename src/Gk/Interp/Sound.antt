-- ===== src/Gk/Interp/Sound.antt =====
-- `eval`: it keeps the bounds, and reads nodes and children that are there.
use gecko_os_mac_compatabili.Common.{
  ℕ, zero, suc, ◌≤◌, ◌<◌, ◌≡◌, refl, subst, length, Bool-cases, inl, inr,
}
use gecko_os_mac_compatabili.Gk.Ast.{
  NodeType, node_int, node_str, node_bool, node_var, node_assign, node_binop, node_unop, node_call,
  node_if, node_while, node_for, node_def, node_return, node_break, node_continue, node_block,
  node_print, node_range, node_input, node_int_cast, Node,
}
use gecko_os_mac_compatabili.Gk.Ast.Grown.{IsDone, least}
use gecko_os_mac_compatabili.Gk.Value.{val_none}
use gecko_os_mac_compatabili.Gk.Store.{State, has_error}
use gecko_os_mac_compatabili.Gk.Store.Sound.{HasLong, Sat-bind, IsSound, Kept, Keeps}
use gecko_os_mac_compatabili.Gk.Eval.{Evals, node_of}
use gecko_os_mac_compatabili.Gk.Eval.Sound.{
  same_bounds, node_of-Done, Preserves, eval_assign-Keeps, eval_unop-Keeps,
}
use gecko_os_mac_compatabili.Gk.Eval.Operators.{
  eval_var-Keeps, eval_binop-Keeps, eval_print-Keeps, eval_input-Keeps, eval_int_cast-Keeps,
}
use gecko_os_mac_compatabili.Gk.Interp.{eval_node, eval}
use gecko_os_mac_compatabili.Gk.Interp.Loops.{
  eval_block-Keeps, eval_if-Keeps, eval_while-Keeps, eval_for-Keeps,
}
use gecko_os_mac_compatabili.Gk.Interp.Calls.{eval_def-Keeps, eval_call-Keeps, eval_return-Keeps}

module _ (ev : Evals) (nested : Preserves ev) where
  eval_node-Keeps :
      (k : ℕ) (s : State) (n : Node)
      → IsSound s
      → IsDone (length s.nodes) n
      → (64 ≤ length n.str_val → HasLong s.nodes)
      → Keeps s (eval_node ev k n s)
  unfolding eval_node
  eval_node-Keeps k s n h d g = by_type n.type refl
    where
      arity : (type : NodeType) → n.type ≡ type → least type ≤ length n.children
      arity type e = subst (λ (t : NodeType). least t ≤ length n.children) e d.arity.0

      by_type : (type : NodeType) → n.type ≡ type → Keeps s (eval_node ev k n s)
      by_type node_int e = rw (e, eval_node) (same_bounds s h)
      by_type node_str e = rw (e, eval_node) (same_bounds s h)
      by_type node_bool e = rw (e, eval_node) (same_bounds s h)
      by_type node_var e = rw (e, eval_node) (eval_var-Keeps s n h)
      by_type node_assign e =
          rw (e, eval_node) (eval_assign-Keeps ev nested s n h d g (arity node_assign e))
      by_type node_unop e =
          rw (e, eval_node) (eval_unop-Keeps ev nested s n h d (arity node_unop e))
      by_type node_binop e =
          rw (e, eval_node) (eval_binop-Keeps ev nested s n h d (arity node_binop e))
      by_type node_print e =
          rw (e, eval_node) (eval_print-Keeps ev nested s s n.children (same_bounds s h) d.below)
      by_type node_input e = rw (e, eval_node) (eval_input-Keeps ev nested s n h d.below)
      by_type node_int_cast e = rw (e, eval_node) (eval_int_cast-Keeps ev nested s n h d)
      by_type node_block e =
          rw (e, eval_node)
            (eval_block-Keeps ev nested s s n.children val_none (same_bounds s h) d.below)
      by_type node_if e = rw (e, eval_node) (eval_if-Keeps ev nested s n h d (arity node_if e))
      by_type node_while e =
          rw (e, eval_node)
            (eval_while-Keeps ev nested k s s n val_none (same_bounds s h) d (arity node_while e))
      by_type node_for e = rw (e, eval_node) (eval_for-Keeps ev nested s n h d g (arity node_for e))
      by_type node_def e = rw (e, eval_node) (eval_def-Keeps ev nested s n h d g (arity node_def e))
      by_type node_call e = rw (e, eval_node) (eval_call-Keeps ev nested s n h d)
      by_type node_return e = rw (e, eval_node) (eval_return-Keeps ev nested s n h d.below)
      by_type node_break e = rw (e, eval_node) (same_bounds s h)
      by_type node_continue e = rw (e, eval_node) (same_bounds s h)
      by_type node_range e = rw (e, eval_node) (same_bounds s h)

-- For any fuel and any node of a sound state (every node complete; every function with a body
-- among the nodes and with at most eight parameters, whose names fit their buffers; the arrays
-- of variables and functions and the call depth within their bounds), evaluation reads no node
-- or child that nobody made, writes no entry behind the arrays of variables, functions and
-- arguments, and copies a name of 64 characters or more into its buffer only if some node has a
-- text of that length; if it ends with a value, the nodes and the call depth are as before, the
-- state is sound, and the variables of the callers' scopes are as before.
pub eval-Keeps : (k i : ℕ) (s : State) → IsSound s → i < length s.nodes → Keeps s (eval k i s)
unfolding eval
eval-Keeps zero i s h l = tt
eval-Keeps (suc k) i s h l = elim (Bool-cases (has_error s)) [
  | inl failed ↦ rw (failed, eval) (same_bounds s h)
  | inr fine ↦
      rw (fine, eval)
        (Sat-bind _
          (λ (n : Node). IsDone (length s.nodes) n × (64 ≤ length n.str_val → HasLong s.nodes))
          (λ r. Kept s r.1) (node_of s i) _ (node_of-Done s i h l)
          (λ n d. eval_node-Keeps (eval k) (λ j t p q. eval-Keeps k j t p q) k s n h d.0 d.1))
]
