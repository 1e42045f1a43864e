-- ===== src/Gk/Interp.antt =====
-- kernel/gk/gk_interp.c: statements, functions, `eval` and `gk_run`. What evaluates a nested node is
-- an argument up to `eval`, which ties the knot; the first number of `eval` bounds its depth and the
-- rounds of `while`.
mod Loops
mod Calls
mod Sound
mod Run
mod Tests
use gecko_os_mac_compatabili.Common.{
  ℕ, zero, suc, ◌-◌, Bool, true, false, not, List, [], ◌∷◌, ◌++◌, none, some, leb, ◌==◌, ◌||◌,
  if◌then◌else◌, length,
}
use gecko_os_mac_compatabili.Gk.Token.{
  TokenType, tok_plus, tok_minus, tok_star, tok_slash, tok_percent, tok_eq, tok_neq, tok_lt, tok_le,
  tok_gt, tok_ge, tok_and, tok_or, tok_not, Lexed, Token,
}
use gecko_os_mac_compatabili.Gk.Token
use gecko_os_mac_compatabili.Gk.Lexer.{gk_lex}
use gecko_os_mac_compatabili.Gk.Ast.{
  NodeType, node_int, node_str, node_bool, node_var, node_assign, node_binop, node_unop, node_call,
  node_if, node_while, node_for, node_def, node_return, node_break, node_continue, node_block,
  node_print, node_range, node_input, node_int_cast, Node, empty_node, Parser, ◌is◌,
}
use gecko_os_mac_compatabili.Gk.Ast
use gecko_os_mac_compatabili.Gk.Parser.{gk_parse}
use gecko_os_mac_compatabili.Gk.Value.{
  Value, val_int, val_str, val_bool, val_none, is_negative, is_truthy,
}
use gecko_os_mac_compatabili.Gk.Store.{
  max_funcs, max_params, max_call_depth, max_name, FuncDef, Failure, undefined_function,
  too_many_functions, wrong_number_of_arguments, max_call_depth_exceeded, range_needs_one,
  range_must_be_integer, for_requires_integer, unknown_node_type, lex_error, parse_error,
  runtime_error, State, Ran, ran, bad_read, overrun, out_of_fuel, long_name, ◌>>=◌, Result,
  has_error, fail, set_var, pop_scope, find_func,
}
use gecko_os_mac_compatabili.Gk.Eval.{
  Evals, node_of, child, unless_error, eval_child, eval_var, eval_assign, eval_unop, eval_binop,
  eval_print, eval_input, eval_int_cast,
}

-- The loop over the statements of a block; `last` is the value of the one before.
pub eval_block : Evals → List ℕ → Value → State → Result
eval_block ev [] last s = ran (last, s)
eval_block ev (c ∷ cs) last s = ev c s >>= λ r.
    elim (has_error r.1 || r.1.returning || r.1.breaking || r.1.continuing) [
      | true ↦ ran r
      | false ↦ eval_block ev cs r.0 r.1
    ]

pub eval_if : Evals → Node → State → Result
eval_if ev n s = eval_child ev n 0 s (λ v t.
    if is_truthy v
    then (child n 1 >>= λ c. ev c t)
    else if length n.children == 3
    then (child n 2 >>= λ c. ev c t)
    else ran (val_none, t))

-- After the body of a loop: whether the loop ends, and the state with the flags that it clears.
abbrev pub after_body : State → Bool × State
after_body s =
    if has_error s || s.returning
    then (true, s)
    else if s.breaking
    then (true, record s { breaking = false })
    else (false, record s { continuing = false })

-- `result` is the value of the last round.
pub eval_while : Evals → ℕ → Node → Value → State → Result
eval_while ev zero n result s = out_of_fuel
eval_while ev (suc k) n result s = child n 0 >>= λ c. ev c s >>= λ v.
    elim (has_error v.1 || not (is_truthy v.0)) [
      | true ↦ ran (result, v.1)
      | false ↦ child n 1 >>= λ d. ev d v.1 >>= λ r. elim (after_body r.1).0 [
        | true ↦ ran (r.0, (after_body r.1).1)
        | false ↦ eval_while ev k n r.0 (after_body r.1).1
      ]
    ]

-- The rounds of `for` that are left, from `i` on.
pub eval_rounds : Evals → ℕ → ℕ → Node → Value → State → Result
eval_rounds ev zero i n result s = ran (result, s)
eval_rounds ev (suc more) i n result s = set_var s n.str_val (val_int i) >>= λ w. elim w.0 [
  | true ↦ child n 1 >>= λ d. ev d w.1 >>= λ r. elim (after_body r.1).0 [
    | true ↦ ran (r.0, (after_body r.1).1)
    | false ↦ eval_rounds ev more (suc i) n r.0 (after_body r.1).1
  ]
  | false ↦ ran (val_none, w.1)
]

-- A negative limit gives no round.
abbrev pub rounds_to : Failure → Evals → Node → Value → State → Result
rounds_to failure ev n (val_int limit) s =
    eval_rounds ev (if is_negative limit then 0 else limit) 0 n val_none s
rounds_to failure ev n _ s = fail failure s

abbrev pub is_range : NodeType → Bool
is_range t = elim t [ node_range ↦ true | _ ↦ false ]

pub eval_for : Evals → Node → State → Result
unfolding eval_rounds
eval_for ev n s = child n 0 >>= λ c. node_of s c >>= λ iter.
    if is_range iter.type
    then (if length iter.children == 0
        then fail range_needs_one s
        else eval_child ev iter 0 s (rounds_to range_must_be_integer ev n))
    else (ev c s >>= unless_error (rounds_to for_requires_integer ev n))

-- The names of the parameters: those of the nodes of the children, without the last child.
pub param_names : State → ℕ → List ℕ → Ran (List (List ℕ))
param_names s zero cs = ran []
param_names s (suc k) [] = ran []
param_names s (suc k) (c ∷ []) = ran []
param_names s (suc k) (c ∷ d ∷ cs) = node_of s c >>= λ x. param_names s k (d ∷ cs) >>= λ names.
    if leb max_name (length x.str_val) then long_name else ran (x.str_val ∷ names)

pub eval_def : Node → State → Result
eval_def n s =
    if leb max_funcs (length s.funcs)
    then fail too_many_functions s
    else if leb max_name (length n.str_val)
    then long_name
    else (param_names s max_params n.children >>= λ names.
        child n (length n.children - 1) >>= λ body. ran (
          val_none,
          record s {
            funcs = s.funcs ++ (record { name = n.str_val; params = names; body_node = body } ∷ []);
          },
        ))

-- The loop over the arguments; `args` has GK_MAX_PARAMS entries.
pub eval_arguments : Evals → ℕ → List ℕ → State → Ran (List Value × State)
eval_arguments ev i [] s = ran ([], s)
eval_arguments ev i (c ∷ cs) s = ev c s >>= λ r. elim (leb max_params i) [
  | true ↦ overrun
  | false ↦ elim (has_error r.1) [
    | true ↦ ran ([], r.1)
    | false ↦ eval_arguments ev (suc i) cs r.1 >>= λ more. ran (r.0 ∷ more.0, more.1)
  ]
]

-- The loop that sets the parameters, until one fails.
pub bind_params : List (List ℕ) → List Value → State → Ran (Bool × State)
bind_params [] vs s = ran (true, s)
bind_params (p ∷ ps) [] s = bad_read
bind_params (p ∷ ps) (v ∷ vs) s =
    set_var s p v >>= λ r. elim r.0 [ true ↦ bind_params ps vs r.1 | false ↦ ran (false, r.1) ]

-- The body of a function whose parameters are set, and the end of its scope.
pub eval_body : Evals → FuncDef → State → Result
eval_body ev f s = ev f.body_node s >>= λ r.
    let value = if r.1.returning then r.1.return_val else r.0 in
    let t = pop_scope (if r.1.returning then record r.1 { returning = false } else r.1) in
    ran (value, record t { call_depth = t.call_depth - 1 })

pub eval_call : Evals → Node → State → Result
unfolding eval_arguments bind_params eval_body
eval_call ev n s = elim (find_func s.funcs n.str_val) [
  | none ↦ fail (undefined_function n.str_val) s
  | some f ↦
      if not (length n.children == length f.params)
      then fail wrong_number_of_arguments s
      else if leb max_call_depth s.call_depth
      then fail max_call_depth_exceeded s
      else (eval_arguments ev 0 n.children s >>= λ a.
          if has_error a.1
          then ran (val_none, a.1)
          else (bind_params f.params a.0 (record a.1 { call_depth = suc a.1.call_depth }) >>= λ b.
              if b.0
              then eval_body ev f b.1
              else ran (val_none, record b.1 { call_depth = b.1.call_depth - 1 })))
]

pub eval_return : Evals → Node → State → Result
eval_return ev n s = elim n.children [
  | [] ↦ ran (val_none, record s { returning = true; return_val = val_none })
  | c ∷ _ ↦ ev c s >>= unless_error (λ v t. ran (v, record t { returning = true; return_val = v }))
]

-- The `switch` of `eval`.
pub eval_node : Evals → ℕ → Node → State → Result
eval_node ev k n s = elim n.type [
  | node_int ↦ ran (val_int n.int_val, s)
  | node_str ↦ ran (val_str n.str_val, s)
  | node_bool ↦ ran (val_bool (not (n.int_val == 0)), s)
  | node_var ↦ eval_var n s
  | node_assign ↦ eval_assign ev n s
  | node_unop ↦ eval_unop ev n s
  | node_binop ↦ eval_binop ev n s
  | node_print ↦ eval_print ev n.children s
  | node_input ↦ eval_input ev n s
  | node_int_cast ↦ eval_int_cast ev n s
  | node_block ↦ eval_block ev n.children val_none s
  | node_if ↦ eval_if ev n s
  | node_while ↦ eval_while ev k n val_none s
  | node_for ↦ eval_for ev n s
  | node_def ↦ eval_def n s
  | node_call ↦ eval_call ev n s
  | node_return ↦ eval_return ev n s
  | node_break ↦ ran (val_none, record s { breaking = true })
  | node_continue ↦ ran (val_none, record s { continuing = true })
  | node_range ↦ fail unknown_node_type s
]

pub eval : ℕ → Evals
unfolding eval_node
eval zero i s = out_of_fuel
eval (suc k) i s =
    if has_error s then ran (val_none, s) else (node_of s i >>= λ n. eval_node (eval k) k n s)

-- The state after `gk_init`, for a user who will type `lines`; what was printed stays.
pub gk_init : State → State
gk_init s = record {
  nodes = [];
  vars = [];
  funcs = [];
  call_depth = 0;
  returning = false;
  breaking = false;
  continuing = false;
  return_val = val_none;
  error = none;
  lines = s.lines;
  output = s.output;
}

-- The last part of `gk_run`, on the nodes that the parser made.
pub run_tree : ℕ → ℕ → State → Ran (Bool × State)
unfolding eval
run_tree k root s = eval k root s >>= λ r. elim r.1.error [
  | none ↦ ran (true, r.1)
  | some f ↦ ran (false, record r.1 { output = r.1.output ++ (runtime_error f ∷ []) })
]

-- After the lexer. The nodes that are left by an error are no part of the state.
pub run_tokens : ℕ → Ast.Parsed (ℕ × Parser) → State → Ran (Bool × State)
unfolding run_tree
run_tokens k (Ast.parsed r) s = run_tree k r.0 (record s { nodes = r.1.nodes })
run_tokens k (Ast.failed m) s =
    ran (false, record s { nodes = []; output = s.output ++ (parse_error m ∷ []) })
run_tokens k Ast.overrun s = overrun
run_tokens k Ast.out_of_fuel s = out_of_fuel

pub run_lexed : ℕ → Lexed (List Token) → State → Ran (Bool × State)
unfolding run_tokens
run_lexed k (Token.lexed ts) s = run_tokens k (gk_parse ts) s
run_lexed k (Token.failed m) s = ran (false, record s { output = s.output ++ (lex_error m ∷ []) })
run_lexed k Token.stack_overflow s = overrun
run_lexed k Token.out_of_fuel s = out_of_fuel

pub gk_run : ℕ → List ℕ → State → Ran (Bool × State)
unfolding run_lexed
gk_run k source s =
    run_lexed k (gk_lex source)
      (record s { error = none; returning = false; breaking = false; continuing = false })
