-- ===== src/Gk/Parser.antt =====
-- kernel/gk/gk_parser.c: blocks, statements and `gk_parse`. As in Gk/Expr, what parses a nested
-- statement is an argument up to `parse_stmt`.
pub mod Loops
pub mod Blocks
pub mod Nodes
mod Tests
use gecko_os_mac_compatabili.Common.{
  ℕ, zero, suc, ◌+◌, Bool, true, false, not, List, [], ◌∷◌, ◌++◌, ◌&&◌, ◌||◌, if◌then◌else◌, ◌==◌,
  leb, length, drop,
}
use gecko_os_mac_compatabili.Gk.Token.{
  TokenType, tok_ident, tok_assign, tok_lparen, tok_rparen, tok_comma, tok_colon, tok_if, tok_elif,
  tok_else, tok_while, tok_for, tok_in, tok_def, tok_return, tok_break, tok_continue, tok_newline,
  tok_indent, tok_dedent, tok_eof, Token,
}
use gecko_os_mac_compatabili.Gk.Ast.{
  Node, node_var, node_assign, node_if, node_while, node_for, node_def, node_return, node_break,
  node_continue, node_block, empty_node, Parser, ParseError, Parsed, parsed, failed, overrun,
  out_of_fuel, ◌>>=◌, Parses, block_too_large, expected_rparen_parameters, expected_block,
  expected_function_name, expected_lparen, expected_parameter, expected_colon_def,
  expected_colon_if, expected_colon_else, expected_colon_while, expected_colon_for,
  expected_variable, expected_in, too_many_statements, ◌is◌, peek_at, peek, advance, check,
  match_token, expect, skip_newlines, add_node, node_at, set_children, add_child,
  add_child_unchecked,
}
use gecko_os_mac_compatabili.Gk.Expr.{parse_expr}

-- The loop over the statements of the block at node `n`, to a token that `ends` it.
pub parse_statements : (TokenType → Bool) → ParseError → Parses → ℕ → ℕ → Parser → Parsed Parser
parse_statements ends m stmt zero n s = out_of_fuel
parse_statements ends m stmt (suc k) n s = elim (ends (peek s).type) [
  | true ↦ parsed s
  | false ↦ stmt s >>= λ r.
      add_child m n r.0 r.1 >>= λ u. parse_statements ends m stmt k n (skip_newlines u)
]

abbrev pub ends_block : TokenType → Bool
ends_block t = t is tok_dedent || t is tok_eof

pub parse_block : Parses → ℕ → Parses
unfolding parse_statements
parse_block stmt k s = expect tok_indent expected_block s >>= λ t.
    add_node (empty_node node_block (peek s).line) t >>= λ b.
    parse_statements ends_block block_too_large stmt k b.0 (skip_newlines b.1) >>= λ u.
    parsed (b.0, match_token u tok_dedent)

-- A colon and the block after it.
pub parse_body : Parses → ℕ → ParseError → Parses
unfolding parse_block
parse_body stmt k m s = expect tok_colon m s >>= λ t. parse_block stmt k (match_token t tok_newline)

pub parse_return : Parses → ℕ → Parses
parse_return expr line s = add_node (empty_node node_return line) s >>= λ n.
    if check n.1 tok_newline || check n.1 tok_eof
    then parsed (n.0, match_token n.1 tok_newline)
    else (expr n.1 >>= λ r. parsed (n.0, match_token (set_children n.0 (r.0 ∷ []) r.1) tok_newline))

-- The loop over the parameters of the function at node `n`.
pub parse_parameters : ℕ → ℕ → Parser → Parsed Parser
parse_parameters zero n s = out_of_fuel
parse_parameters (suc k) n s = elim (check s tok_rparen || check s tok_eof) [
  | true ↦ parsed s
  | false ↦ elim (check s tok_ident) [
    | false ↦ failed expected_parameter
    | true ↦
        add_node (record (empty_node node_var (peek s).line) { str_val = (peek s).str_val })
          (advance s)
        >>= λ p. add_child_unchecked n p.0 p.1 >>= λ u. elim (check u tok_comma) [
          | true ↦ parse_parameters k n (advance u)
          | false ↦ parsed u
        ]
  ]
]

-- After `def`.
pub parse_def : Parses → ℕ → ℕ → Parses
unfolding parse_parameters parse_body
parse_def stmt k line s =
    if not (check s tok_ident)
    then failed expected_function_name
    else (add_node (record (empty_node node_def line) { str_val = (peek s).str_val }) (advance s)
        >>= λ n. expect tok_lparen expected_lparen n.1 >>= λ t. parse_parameters k n.0 t >>= λ u.
            expect tok_rparen expected_rparen_parameters u >>= λ v.
            parse_body stmt k expected_colon_def v >>= λ b.
            add_child_unchecked n.0 b.0 b.1 >>= λ w. parsed (n.0, w))

-- A condition or an iterable, and the body of the statement at node `n`.
pub parse_head : Parses → Parses → ℕ → ParseError → ℕ → Parses
unfolding parse_body
parse_head expr stmt k m n s =
    expr s >>= λ c. parse_body stmt k m c.1 >>= λ b. parsed (n, set_children n (c.0 ∷ b.0 ∷ []) b.1)

-- The optional `elif` or `else` of the statement at node `n` with condition and body `both`.
pub parse_else : Parses → ℕ → ℕ → List ℕ → Parses
unfolding parse_body
parse_else stmt k n both s =
    if check s tok_elif
    then (stmt s >>= λ e. parsed (n, set_children n (both ++ (e.0 ∷ [])) e.1))
    else if check s tok_else
    then (parse_body stmt k expected_colon_else (advance s) >>= λ e.
        parsed (n, set_children n (both ++ (e.0 ∷ [])) e.1))
    else parsed (n, s)

-- After `if` or `elif`.
pub parse_if : Parses → Parses → ℕ → ℕ → Parses
unfolding parse_body parse_else
parse_if expr stmt k line s = add_node (empty_node node_if line) s >>= λ n. expr n.1 >>= λ c.
    parse_body stmt k expected_colon_if c.1 >>= λ b.
    parse_else stmt k n.0 (c.0 ∷ b.0 ∷ []) (skip_newlines (set_children n.0 (c.0 ∷ b.0 ∷ []) b.1))

-- After `while`.
pub parse_while : Parses → Parses → ℕ → ℕ → Parses
unfolding parse_head
parse_while expr stmt k line s = add_node (empty_node node_while line) s >>= λ n.
    parse_head expr stmt k expected_colon_while n.0 n.1

-- After `for`.
pub parse_for : Parses → Parses → ℕ → ℕ → Parses
unfolding parse_head
parse_for expr stmt k line s =
    if not (check s tok_ident)
    then failed expected_variable
    else (expect tok_in expected_in (advance s) >>= λ t.
        add_node (record (empty_node node_for line) { str_val = (peek s).str_val }) t >>= λ n.
        parse_head expr stmt k expected_colon_for n.0 n.1)

-- The size of `name`.
abbrev pub name_size : ℕ
name_size = 64

-- After the name, which must fit its buffer, and `=`.
pub parse_assign : Parses → List ℕ → ℕ → Parses
parse_assign expr name line s =
    if leb name_size (length name)
    then overrun
    else (add_node (record (empty_node node_assign line) { str_val = name }) s >>= λ n.
        expr n.1 >>= λ r. parsed (n.0, match_token (set_children n.0 (r.0 ∷ []) r.1) tok_newline))

pub parse_expr_stmt : Parses → Parses
parse_expr_stmt expr s = expr s >>= λ r. parsed (r.0, match_token r.1 tok_newline)

-- One statement, by its first token.
pub parse_stmt_by : Parses → Parses → ℕ → Parses
unfolding parse_return parse_def parse_if parse_while parse_for parse_assign parse_expr_stmt
parse_stmt_by expr stmt k s =
    let t = peek s in
    if t.type is tok_return
    then parse_return expr t.line (advance s)
    else if t.type is tok_break
    then add_node (empty_node node_break t.line) (match_token (advance s) tok_newline)
    else if t.type is tok_continue
    then add_node (empty_node node_continue t.line) (match_token (advance s) tok_newline)
    else if t.type is tok_def
    then parse_def stmt k t.line (advance s)
    else if t.type is tok_if || t.type is tok_elif
    then parse_if expr stmt k t.line (advance s)
    else if t.type is tok_while
    then parse_while expr stmt k t.line (advance s)
    else if t.type is tok_for
    then parse_for expr stmt k t.line (advance s)
    else if t.type is tok_ident && (peek_at (drop 1 s.rest)).type is tok_assign
    then parse_assign expr t.str_val t.line (advance (advance s))
    else parse_expr_stmt expr s

pub parse_stmt : ℕ → Parses
parse_stmt zero s = out_of_fuel
parse_stmt (suc k) s = parse_stmt_by (parse_expr k) (parse_stmt k) k s

abbrev pub ends_source : TokenType → Bool
ends_source t = t is tok_eof

-- The root and the nodes.
pub gk_parse : List Token → Parsed (ℕ × Parser)
unfolding parse_statements
gk_parse tokens =
    let k = length tokens + 3 in
    add_node (empty_node node_block 0) (record { rest = tokens; nodes = [] }) >>= λ root.
    parse_statements ends_source too_many_statements (parse_stmt k) k root.0 (skip_newlines root.1)
    >>= λ s. parsed (root.0, s)
