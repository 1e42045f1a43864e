-- ===== src/Gk/Eval.antt =====
-- kernel/gk/gk_interp.c: what `eval` does at the nodes of expressions and calls of the built-in
-- functions. What evaluates a nested node is an argument.
pub mod Sound
pub mod Operators
use gecko_os_mac_compatabili.Common.{
  ℕ, ◌+◌, ◌-◌, ◌*◌, ◌/◌, ◌%◌, Bool, true, false, not, List, [], ◌∷◌, ◌++◌, none, some, leb, ◌==◌,
  ◌&&◌, ◌||◌, if◌then◌else◌, length, get_elem?,
}
use gecko_os_mac_compatabili.Gk.Token.{
  TokenType, tok_plus, tok_minus, tok_star, tok_slash, tok_percent, tok_eq, tok_neq, tok_lt, tok_le,
  tok_gt, tok_ge, tok_and, tok_or, tok_not,
}
use gecko_os_mac_compatabili.Gk.Lexer.{same_text}
use gecko_os_mac_compatabili.Gk.Ast.{Node, ◌is◌}
use gecko_os_mac_compatabili.Gk.Value.{
  Value, val_int, val_str, val_bool, val_none, word, least_int, is_negative, negate, magnitude,
  with_sign, less, is_truthy, val_to_str, strcat_s, parse_int,
}
use gecko_os_mac_compatabili.Gk.Store.{
  Failure, undefined_variable, division_by_zero, modulo_by_zero, unknown_operator,
  minus_requires_integer, operator_requires_integers, int_takes_one, int_requires_string_or_integer,
  int_invalid_literal, text, State, Ran, ran, bad_read, divide_fault, ◌>>=◌, Result, has_error,
  fail, find_var, set_var,
}

-- Evaluates the node at an index.
abbrev pub Evals : Type 0
Evals = ℕ → State → Result

abbrev pub node_of : State → ℕ → Ran Node
node_of s i = elim (get_elem? s.nodes i) [ none ↦ bad_read | some n ↦ ran n ]

abbrev pub child : Node → ℕ → Ran ℕ
child n i = elim (get_elem? n.children i) [ none ↦ bad_read | some c ↦ ran c ]

abbrev pub print : List ℕ → State → State
print cs s = record s { output = s.output ++ (text cs ∷ []) }

-- `if (s->error[0]) return val_none();`, and what follows it.
abbrev pub unless_error : (Value → State → Result) → Value × State → Result
unless_error k (v, s) = if has_error s then ran (val_none, s) else k v s

-- Child `i` of a node and what follows it, when there is no error.
abbrev pub eval_child : Evals → Node → ℕ → State → (Value → State → Result) → Result
eval_child ev n i s k = child n i >>= λ c. ev c s >>= unless_error k

pub eval_var : Node → State → Result
eval_var n s = elim (find_var s.vars n.str_val) [
  | none ↦ fail (undefined_variable n.str_val) s
  | some v ↦ ran (v, s)
]

pub eval_assign : Evals → Node → State → Result
eval_assign ev n s =
    eval_child ev n 0 s
      (λ v t. set_var t n.str_val v >>= λ r. ran (if r.0 then v else val_none, r.1))

abbrev pub apply_unary : TokenType → Value → State → Result
apply_unary op v s =
    if op is tok_minus
    then elim v [ val_int x ↦ ran (val_int (negate x), s) | _ ↦ fail minus_requires_integer s ]
    else if op is tok_not
    then ran (val_bool (not (is_truthy v)), s)
    else ran (val_none, s)

pub eval_unop : Evals → Node → State → Result
eval_unop ev n s = eval_child ev n 0 s (apply_unary n.op)

-- `==`
abbrev pub same_value : Value → Value → Bool
same_value (val_int a) (val_int b) = a == b
same_value (val_bool a) (val_bool b) = (a && b) || (not a && not b)
same_value (val_str a) (val_str b) = same_text a b
same_value _ _ = false

-- A quotient or a remainder: the least number by -1 is an exception.
abbrev pub divide : Failure → (ℕ → ℕ → ℕ) → ℕ → ℕ → State → Result
divide zero_error f a b s =
    if b == 0
    then fail zero_error s
    else if a == least_int && b == word - 1
    then divide_fault
    else ran (val_int (f a b), s)

abbrev pub quotient : ℕ → ℕ → ℕ
quotient a b =
    let q = magnitude a / magnitude b in
    if is_negative a then with_sign (not (is_negative b)) q else with_sign (is_negative b) q

abbrev pub remainder : ℕ → ℕ → ℕ
remainder a b = with_sign (is_negative a) (magnitude a % magnitude b)

-- The operators on two integers.
pub int_operator : TokenType → ℕ → ℕ → State → Result
int_operator op a b s = elim op [
  | tok_plus ↦ ran (val_int ((a + b) % word), s)
  | tok_minus ↦ ran (val_int ((a + (word - b)) % word), s)
  | tok_star ↦ ran (val_int ((a * b) % word), s)
  | tok_slash ↦ divide division_by_zero quotient a b s
  | tok_percent ↦ divide modulo_by_zero remainder a b s
  | tok_lt ↦ ran (val_bool (less a b), s)
  | tok_le ↦ ran (val_bool (not (less b a)), s)
  | tok_gt ↦ ran (val_bool (less b a), s)
  | tok_ge ↦ ran (val_bool (not (less a b)), s)
  | _ ↦ fail unknown_operator s
]

abbrev pub on_integers : TokenType → Value → Value → State → Result
on_integers op (val_int a) (val_int b) s = int_operator op a b s
on_integers op _ _ s = fail operator_requires_integers s

abbrev pub plus : Value → Value → State → Result
plus (val_str cs) r s = ran (val_str (strcat_s cs (val_to_str r)), s)
plus l r s = on_integers tok_plus l r s

-- The operators that are not `and` or `or`.
pub eval_operator : TokenType → Value → Value → State → Result
unfolding same_text
eval_operator op l r s =
    if op is tok_eq
    then ran (val_bool (same_value l r), s)
    else if op is tok_neq
    then ran (val_bool (not (same_value l r)), s)
    else if op is tok_plus
    then plus l r s
    else on_integers op l r s

-- `and` and `or`: the right operand is evaluated when the left one has truth value `more`.
abbrev pub eval_lazy : Evals → Bool → Node → State → Result
eval_lazy ev more n s = child n 0 >>= λ c. ev c s >>= λ l.
    if is_truthy l.0
    then (if more then right l.1 else ran (val_bool true, l.1))
    else (if more then ran (val_bool false, l.1) else right l.1)
  where
    right : State → Result
    right t = child n 1 >>= λ d. ev d t >>= λ r. ran (val_bool (is_truthy r.0), r.1)

pub eval_binop : Evals → Node → State → Result
eval_binop ev n s =
    if n.op is tok_and
    then eval_lazy ev true n s
    else if n.op is tok_or
    then eval_lazy ev false n s
    else eval_child ev n 0 s (λ l t. eval_child ev n 1 t (λ r u. eval_operator n.op l r u))

-- The loop of `print` over its arguments.
pub eval_print : Evals → List ℕ → State → Result
eval_print ev [] s = ran (val_none, print (b'\n' ∷ []) s)
eval_print ev (c ∷ cs) s =
    ev c s
    >>= unless_error (λ v t. eval_print ev cs (
        if leb 1 (length cs)
        then print (b' ' ∷ []) (print (val_to_str v) t)
        else print (val_to_str v) t))

-- `input`: the next line that is typed.
abbrev pub read_line : State → Result
read_line s = elim s.lines [
  | [] ↦ ran (val_str [], print (b'\n' ∷ []) s)
  | line ∷ more ↦ ran (val_str line, print (b'\n' ∷ []) (record s { lines = more }))
]

pub eval_input : Evals → Node → State → Result
eval_input ev n s = elim n.children [
  | [] ↦ read_line s
  | c ∷ _ ↦ ev c s >>= unless_error (λ v t. read_line (print (val_to_str v) t))
]

abbrev pub cast : Value → State → Result
cast (val_int v) s = ran (val_int v, s)
cast (val_str cs) s = elim (parse_int cs) [
  | none ↦ fail int_invalid_literal s
  | some v ↦ ran (val_int v, s)
]
cast _ s = fail int_requires_string_or_integer s

pub eval_int_cast : Evals → Node → State → Result
eval_int_cast ev n s =
    if length n.children == 1 then eval_child ev n 0 s cast else fail int_takes_one s
