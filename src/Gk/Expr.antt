-- ===== src/Gk/Expr.antt =====
-- kernel/gk/gk_parser.c: expressions, by recursive descent. The parser of a nested expression is an
-- argument up to `parse_expr`, which ties the knot; numbers of rounds bound the loops.
pub mod Nodes
use gecko_os_mac_compatabili.Common.{
  ℕ, zero, suc, Bool, true, false, List, [], ◌∷◌, ◌||◌, if◌then◌else◌, ◌==◌,
}
use gecko_os_mac_compatabili.Gk.Token.{
  TokenType, tok_int, tok_str, tok_ident, tok_plus, tok_minus, tok_star, tok_slash, tok_percent,
  tok_eq, tok_neq, tok_lt, tok_le, tok_gt, tok_ge, tok_and, tok_or, tok_not, tok_lparen, tok_rparen,
  tok_comma, tok_true, tok_false, tok_eof,
}
use gecko_os_mac_compatabili.Gk.Lexer.{same_text}
use gecko_os_mac_compatabili.Gk.Ast.{
  NodeType, node_int, node_str, node_bool, node_var, node_binop, node_unop, node_call, node_print,
  node_range, node_input, node_int_cast, empty_node, Parser, Parsed, parsed, failed, out_of_fuel,
  ◌>>=◌, Parses, too_many_arguments, unexpected_token, expected_rparen, expected_rparen_arguments,
  ◌is◌, peek, advance, check, expect, add_node, add_child,
}

-- The type of the node of a call, by the name that is called.
pub call_type : List ℕ → NodeType
unfolding same_text
call_type name =
    if same_text name (b'i' ∷ b'n' ∷ b't' ∷ [])
    then node_int_cast
    else if same_text name (b'i' ∷ b'n' ∷ b'p' ∷ b'u' ∷ b't' ∷ [])
    then node_input
    else if same_text name (b'r' ∷ b'a' ∷ b'n' ∷ b'g' ∷ b'e' ∷ [])
    then node_range
    else if same_text name (b'p' ∷ b'r' ∷ b'i' ∷ b'n' ∷ b't' ∷ [])
    then node_print
    else node_call

-- The loop over the arguments of the call at node `n`.
pub parse_args : Parses → ℕ → ℕ → Parser → Parsed Parser
parse_args expr zero n s = out_of_fuel
parse_args expr (suc k) n s = elim (check s tok_rparen || check s tok_eof) [
  | true ↦ parsed s
  | false ↦ expr s >>= λ r. add_child too_many_arguments n r.0 r.1 >>= λ u.
      elim (check u tok_comma) [ true ↦ parse_args expr k n (advance u) | false ↦ parsed u ]
]

-- From the parenthesis after a name on.
pub parse_call : Parses → ℕ → List ℕ → ℕ → Parses
unfolding parse_args call_type
parse_call expr k name line s =
    add_node (record (empty_node (call_type name) line) { str_val = name }) s >>= λ r.
    parse_args expr k r.0 r.1 >>= λ t.
    expect tok_rparen expected_rparen_arguments t >>= λ u. parsed (r.0, u)

-- After a name.
pub parse_name : Parses → ℕ → List ℕ → ℕ → Parses
unfolding parse_call
parse_name expr k name line s =
    if check s tok_lparen
    then parse_call expr k name line (advance s)
    else add_node (record (empty_node node_var line) { str_val = name }) s

pub parse_primary : Parses → ℕ → Parses
unfolding parse_name
parse_primary expr k s =
    let t = peek s in
    if t.type is tok_int
    then add_node (record (empty_node node_int t.line) { int_val = t.int_val }) (advance s)
    else if t.type is tok_str
    then add_node (record (empty_node node_str t.line) { str_val = t.str_val }) (advance s)
    else if t.type is tok_true || t.type is tok_false
    then add_node
        (record (empty_node node_bool t.line) { int_val = if t.type is tok_true then 1 else 0 })
        (advance s)
    else if t.type is tok_ident
    then parse_name expr k t.str_val t.line (advance s)
    else if t.type is tok_lparen
    then (expr (advance s) >>= λ r. expect tok_rparen expected_rparen r.1 >>= λ u. parsed (r.0, u))
    else failed unexpected_token

abbrev unary_node : TokenType → ℕ → ℕ × Parser → Parsed (ℕ × Parser)
unary_node op line (operand, s) =
    add_node (record (empty_node node_unop line) { op = op; children = operand ∷ [] }) s

pub parse_unary : Parses → ℕ → Parses
parse_unary expr zero s = out_of_fuel
parse_unary expr (suc k) s = elim (check s tok_minus) [
  | true ↦ parse_unary expr k (advance s) >>= unary_node tok_minus (peek s).line
  | false ↦ elim (check s tok_not) [
    | true ↦ parse_unary expr k (advance s) >>= unary_node tok_not (peek s).line
    | false ↦ parse_primary expr k s
  ]
]

-- The loop of each level of binary operators: `test` says which, `operand` parses the level below.
pub parse_operators : (TokenType → Bool) → Parses → ℕ → ℕ → Parses
parse_operators test operand zero left s = out_of_fuel
parse_operators test operand (suc k) left s = elim (test (peek s).type) [
  | true ↦ operand (advance s) >>= λ r.
      add_node
        (record (empty_node node_binop (peek s).line) {
          op = (peek s).type;
          children = left ∷ r.0 ∷ [];
        })
        r.1
      >>= λ n. parse_operators test operand k n.0 n.1
  | false ↦ parsed (left, s)
]

pub parse_level : (TokenType → Bool) → Parses → ℕ → Parses
unfolding parse_operators
parse_level test operand k s = operand s >>= λ r. parse_operators test operand k r.0 r.1

abbrev pub is_mul : TokenType → Bool
is_mul t = t is tok_star || t is tok_slash || t is tok_percent

abbrev pub is_add : TokenType → Bool
is_add t = t is tok_plus || t is tok_minus

abbrev pub is_cmp : TokenType → Bool
is_cmp t = t is tok_eq || t is tok_neq || t is tok_lt || t is tok_le || t is tok_gt || t is tok_ge

abbrev pub is_and : TokenType → Bool
is_and t = t is tok_and

abbrev pub is_or : TokenType → Bool
is_or t = t is tok_or

pub parse_mul : Parses → ℕ → Parses
parse_mul expr k = parse_level is_mul (parse_unary expr k) k

pub parse_add : Parses → ℕ → Parses
parse_add expr k = parse_level is_add (parse_mul expr k) k

pub parse_cmp : Parses → ℕ → Parses
parse_cmp expr k = parse_level is_cmp (parse_add expr k) k

pub parse_and : Parses → ℕ → Parses
parse_and expr k = parse_level is_and (parse_cmp expr k) k

pub parse_or : Parses → ℕ → Parses
parse_or expr k = parse_level is_or (parse_and expr k) k

pub parse_expr : ℕ → Parses
parse_expr zero s = out_of_fuel
parse_expr (suc k) s = parse_or (parse_expr k) k s
