-- ===== src/Gk/Ast.antt =====
-- include/gk/gk.h and the helpers of kernel/gk/gk_parser.c: the nodes of the syntax tree and the
-- parser's state. A position in the tokens is the list of the tokens from there on; the last one is
-- TOK_EOF, which is never passed.
pub mod Grown
pub mod Tokens
pub mod Made
use gecko_os_mac_compatabili.Common.{
  ℕ, zero, suc, Bool, List, [], ◌∷◌, ◌++◌, leb, ◌==◌, if◌then◌else◌, length, get_or, drop,
}
use gecko_os_mac_compatabili.Gk.Token.{
  TokenType, tok_int, tok_str, tok_ident, tok_plus, tok_minus, tok_star, tok_slash, tok_percent,
  tok_eq, tok_neq, tok_lt, tok_le, tok_gt, tok_ge, tok_and, tok_or, tok_not, tok_assign, tok_lparen,
  tok_rparen, tok_comma, tok_colon, tok_if, tok_elif, tok_else, tok_while, tok_for, tok_in, tok_def,
  tok_return, tok_break, tok_continue, tok_true, tok_false, tok_newline, tok_indent, tok_dedent,
  tok_eof, Token,
}

abbrev pub max_nodes : ℕ
max_nodes = 2048

abbrev pub max_children : ℕ
max_children = 64

pub data NodeType : Type 0 where
  node_int node_str node_bool node_var node_assign node_binop node_unop node_call : NodeType
  node_if node_while node_for node_def node_return node_break node_continue : NodeType
  node_block node_print node_range node_input node_int_cast : NodeType

-- `children` are the first `n_children` entries of `child`. `op` is set in operators only.
pub record Node : Type 0 where
  pub type : NodeType
  pub line : ℕ
  pub int_val : ℕ
  pub str_val : List ℕ
  pub op : TokenType
  pub children : List ℕ

abbrev pub empty_node : NodeType → ℕ → Node
empty_node t line = record {
  type = t;
  line = line;
  int_val = 0;
  str_val = [];
  op = tok_eof;
  children = [];
}

pub record Parser : Type 0 where
  pub rest : List Token
  pub nodes : List Node

-- What is left in `error` by a return of -1.
pub data ParseError : Type 0 where
  too_many_nodes too_many_arguments unexpected_token block_too_large : ParseError
  expected_rparen expected_rparen_arguments expected_rparen_parameters : ParseError
  expected_block expected_function_name expected_lparen expected_parameter : ParseError
  expected_colon_def expected_colon_if expected_colon_else : ParseError
  expected_colon_while expected_colon_for expected_variable expected_in : ParseError
  too_many_statements : ParseError

-- `overrun` is a write behind the children of a node or behind the buffer for a name.
pub data Parsed {ℓ} (A : Type ℓ) : Type ℓ where
  parsed : A → Parsed A
  failed : ParseError → Parsed A
  overrun : Parsed A
  out_of_fuel : Parsed A

infixl 5 ◌>>=◌
abbrev pub ◌>>=◌ {ℓ κ} : {A : Type ℓ} {B : Type κ} → Parsed A → (A → Parsed B) → Parsed B
parsed a >>= f = f a
failed m >>= f = failed m
overrun >>= f = overrun
out_of_fuel >>= f = out_of_fuel

-- A parser of an expression or a statement returns the index of its node.
abbrev pub Parses : Type 0
Parses = Parser → Parsed (ℕ × Parser)

-- The value of an enumerator.
abbrev pub ordinal : TokenType → ℕ
ordinal tok_int = 0
ordinal tok_str = 1
ordinal tok_ident = 2
ordinal tok_plus = 3
ordinal tok_minus = 4
ordinal tok_star = 5
ordinal tok_slash = 6
ordinal tok_percent = 7
ordinal tok_eq = 8
ordinal tok_neq = 9
ordinal tok_lt = 10
ordinal tok_le = 11
ordinal tok_gt = 12
ordinal tok_ge = 13
ordinal tok_and = 14
ordinal tok_or = 15
ordinal tok_not = 16
ordinal tok_assign = 17
ordinal tok_lparen = 18
ordinal tok_rparen = 19
ordinal tok_comma = 20
ordinal tok_colon = 21
ordinal tok_if = 22
ordinal tok_elif = 23
ordinal tok_else = 24
ordinal tok_while = 25
ordinal tok_for = 26
ordinal tok_in = 27
ordinal tok_def = 28
ordinal tok_return = 29
ordinal tok_break = 30
ordinal tok_continue = 31
ordinal tok_true = 32
ordinal tok_false = 33
ordinal tok_newline = 34
ordinal tok_indent = 35
ordinal tok_dedent = 36
ordinal tok_eof = 37

infix 50 ◌is◌
abbrev pub ◌is◌ : TokenType → TokenType → Bool
t is u = ordinal t == ordinal u

abbrev pub peek_at : List Token → Token
peek_at [] = record { type = tok_eof; int_val = 0; str_val = []; line = 0 }
peek_at (t ∷ ts) = t

abbrev pub peek : Parser → Token
peek s = peek_at s.rest

unfoldable pub advance : Parser → Parser
advance s = if (peek s).type is tok_eof then s else record s { rest = drop 1 s.rest }

abbrev pub check : Parser → TokenType → Bool
check s t = (peek s).type is t

unfoldable pub match_token : Parser → TokenType → Parser
unfolding advance
match_token s t = if check s t then advance s else s

unfoldable pub expect : TokenType → ParseError → Parser → Parsed Parser
unfolding advance
expect t m s = if check s t then parsed (advance s) else failed m

-- `while (check(s, TOK_NEWLINE)) advance(s)`
unfoldable pub drop_newlines : List Token → List Token
drop_newlines [] = []
drop_newlines (t ∷ ts) = if t.type is tok_newline then drop_newlines ts else t ∷ ts

abbrev pub skip_newlines : Parser → Parser
skip_newlines s = record s { rest = drop_newlines s.rest }

-- `new_node`, with what its caller puts into the node before it goes on.
unfoldable pub add_node : Node → Parses
add_node n s =
    if leb max_nodes (length s.nodes)
    then failed too_many_nodes
    else parsed (length s.nodes, record s { nodes = s.nodes ++ (n ∷ []) })

-- A write to a node that was made before.
unfoldable pub change_node : ℕ → (Node → Node) → List Node → List Node
change_node i f [] = []
change_node zero f (n ∷ ns) = f n ∷ ns
change_node (suc i) f (n ∷ ns) = n ∷ change_node i f ns

abbrev pub node_at : Parser → ℕ → Node
node_at s i = get_or s.nodes i (empty_node node_int 0)

abbrev pub set_children : ℕ → List ℕ → Parser → Parser
set_children i cs s = record s { nodes = change_node i (λ n. record n { children = cs }) s.nodes }

abbrev pub append_child : ℕ → ℕ → Parser → Parser
append_child i c s = record s {
  nodes = change_node i (λ n. record n { children = n.children ++ (c ∷ []) }) s.nodes;
}

-- `child[n_children++] = c` after the test, and without it.
unfoldable pub add_child : ParseError → ℕ → ℕ → Parser → Parsed Parser
add_child m i c s =
    if leb max_children (length (node_at s i).children)
    then failed m
    else parsed (append_child i c s)

unfoldable pub add_child_unchecked : ℕ → ℕ → Parser → Parsed Parser
add_child_unchecked i c s =
    if leb max_children (length (node_at s i).children)
    then overrun
    else parsed (append_child i c s)
