-- ===== src/Gk/Interp/Tests.antt =====
-- The language of kernel/gk on a program that prints.
use gecko_os_mac_compatabili.Common.{
  ℕ, ◌≤◌, ◌≡◌, ◌≢◌, refl, List, [], ◌∷◌, Bool, true, false, none, some, arith,
}
use gecko_os_mac_compatabili.Gk.Token.{Token, tok_break, tok_eof}
use gecko_os_mac_compatabili.Gk.Ast.{Parser, node_block, node_return, node_int, empty_node}
use gecko_os_mac_compatabili.Gk.Ast.Tokens
use gecko_os_mac_compatabili.Gk.Ast.Grown.{IsDone}
use gecko_os_mac_compatabili.Gk.Parser.{gk_parse}
use gecko_os_mac_compatabili.Gk.Value.{val_none, val_int, parse_int, int_to_str}
use gecko_os_mac_compatabili.Gk.Value.Decimal.{parse_int-int_to_str}
use gecko_os_mac_compatabili.Gk.Store.{State, ran, bad_read, set_var}
use gecko_os_mac_compatabili.Gk.Store.Sound.{HasLong, Sat, IsSound, Keeps}
use gecko_os_mac_compatabili.Gk.Store.Vars.{Assigned, set_var-Assigned}
use gecko_os_mac_compatabili.Gk.Interp.{
  eval_block, eval_return, eval_node, eval, run_tree, gk_run, gk_init,
}
use gecko_os_mac_compatabili.Gk.Interp.Sound.{eval-Keeps}
use gecko_os_mac_compatabili.Gk.Interp.Run.{run_tree-IsSound, gk_run-ne-bad_read}

abbrev empty_state : State
empty_state = record {
  nodes = [];
  vars = [];
  funcs = [];
  call_depth = 0;
  returning = false;
  breaking = false;
  continuing = false;
  return_val = val_none;
  error = none;
  lines = [];
  output = [];
}

-- "x=2*3", then "print(x+1,5%0)"
abbrev source : List ℕ
source =
    b'x' ∷ b'=' ∷ b'2' ∷ b'*' ∷ b'3' ∷ b'\n' ∷ b'p' ∷ b'r' ∷ b'i' ∷ b'n' ∷ b't' ∷ b'(' ∷ b'x' ∷ b'+'
    ∷ b'1' ∷ b')' ∷ []

-- return 7
abbrev tree_state : State
tree_state = record empty_state {
  nodes =
      record (empty_node node_block 0) { children = 1 ∷ [] }
      ∷ record (empty_node node_return 1) { children = 2 ∷ [] }
      ∷ record (empty_node node_int 1) { int_val = 7 }
      ∷ [];
}

abbrev leaf_done : IsDone 3 (record (empty_node node_int 1) { int_val = 7 })
leaf_done = record { arity = (omega arith, omega arith); below = tt }

tree_state-IsSound : IsSound tree_state
tree_state-IsSound = record {
  tree = (
    record { arity = (omega arith, omega arith); below = (omega arith, tt) },
    (record { arity = (omega arith, omega arith); below = (omega arith, tt) }, (leaf_done, tt)),
  );
  vars_room = omega arith;
  funcs_room = omega arith;
  callable = tt;
  shallow = omega arith;
}

eval-Keeps_example : Keeps tree_state (eval 4 0 tree_state)
eval-Keeps_example = eval-Keeps 4 0 tree_state tree_state-IsSound (omega arith)

abbrev returned_state : State
returned_state = record tree_state { returning = true; return_val = val_int 7 }

tree_state-eval : eval 4 0 tree_state ≡ ran (val_int 7, returned_state)
unfolding eval eval_node eval_block eval_return
tree_state-eval = refl

gk_run-ne-bad_read_example : gk_run 10 source (gk_init empty_state) ≢ bad_read
gk_run-ne-bad_read_example = gk_run-ne-bad_read 10 source empty_state

-- break
abbrev tokens : List Token
tokens =
    record { type = tok_break; int_val = 0; str_val = []; line = 1 }
    ∷ record { type = tok_eof; int_val = 0; str_val = []; line = 1 }
    ∷ []

run_tree-IsSound_example :
    Tokens.Sat
      (λ (r : ℕ × Parser).
        Sat
          (HasLong r.1.nodes)
          (λ (x : Bool × State). IsSound x.1)
          (run_tree 5 r.0 (record (gk_init empty_state) { nodes = r.1.nodes })))
      (gk_parse tokens)
run_tree-IsSound_example = run_tree-IsSound 5 tokens empty_state

set_var-Assigned_example :
    Sat
      (64 ≤ 1)
      (λ (r : Bool × State).
        (r.0 ≡ true → Assigned (b'x' ∷ []) (val_int 3) [] r.1.vars)
        × (r.0 ≡ false → (r.1.vars ≡ []) × (128 ≤ 0)))
      (set_var empty_state (b'x' ∷ []) (val_int 3))
set_var-Assigned_example = set_var-Assigned empty_state (b'x' ∷ []) (val_int 3)

-- The pattern of -5.
parse_int-int_to_str_example : parse_int (int_to_str 4294967291) ≡ some 4294967291
parse_int-int_to_str_example =
    parse_int-int_to_str 4294967291 (omega arith) (λ e. absurd (omega (arith, e)))
