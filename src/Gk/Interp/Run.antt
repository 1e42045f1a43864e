-- ===== src/Gk/Interp/Run.antt =====
-- `gk_run`: the lexer, the parser and `eval` together.
use gecko_os_mac_compatabili.Common.{
  ℕ, ◌<◌, subst, Bool, true, false, List, [], ◌∷◌, ◌++◌, Option, none, some, arith, length, ◌≢◌,
}
use gecko_os_mac_compatabili.Gk.Ast.{
  NodeType, node_int, node_str, node_bool, node_var, node_assign, node_binop, node_unop, node_call,
  node_if, node_while, node_for, node_def, node_return, node_break, node_continue, node_block,
  node_print, node_range, node_input, node_int_cast, Node, Parser, Parsed, parsed, failed,
}
use gecko_os_mac_compatabili.Gk.Ast.Grown.{AllDone}
use gecko_os_mac_compatabili.Gk.Store.{State, Ran, ran, bad_read, Failure, runtime_error}
use gecko_os_mac_compatabili.Gk.Store.Sound.{HasLong, Sat, Sat-bind, IsSound, Kept}
use gecko_os_mac_compatabili.Gk.Interp.Sound.{eval-Keeps}
use gecko_os_mac_compatabili.Gk.Interp.{eval, gk_init, run_tree, run_tokens, run_lexed, gk_run}
use gecko_os_mac_compatabili.Gk.Token.{Token, Lexed}
use gecko_os_mac_compatabili.Gk.Token
use gecko_os_mac_compatabili.Gk.Ast
use gecko_os_mac_compatabili.Gk.Lexer.{gk_lex}
use gecko_os_mac_compatabili.Gk.Ast.Tokens
use gecko_os_mac_compatabili.Gk.Parser.{gk_parse}
use gecko_os_mac_compatabili.Gk.Parser.Nodes.{IsTree, gk_parse-IsTree}

-- With no variable and no function yet, complete nodes are all it takes.
start-IsSound :
    (s : State) (ns : List Node)
    → AllDone (length ns) ns
    → IsSound (record (gk_init s) { nodes = ns })
unfolding gk_init
start-IsSound s ns h = record {
  tree = h;
  vars_room = omega arith;
  funcs_room = omega arith;
  callable = tt;
  shallow = omega arith;
}

reported-IsSound :
    (L : Type 0) (t : State) (e : Option Failure)
    → IsSound t
    → Sat L
        (λ (x : Bool × State). IsSound x.1)
        (elim e [
          | none ↦ ran (true, t)
          | some f ↦ ran (false, record t { output = t.output ++ (runtime_error f ∷ []) })
        ])
reported-IsSound L t none h = h
reported-IsSound L t (some f) h = h

run_tree-bounded :
    (k root : ℕ) (s : State)
    → IsSound s
    → root < length s.nodes
    → Sat (HasLong s.nodes) (λ (x : Bool × State). IsSound x.1) (run_tree k root s)
unfolding run_tree
run_tree-bounded k root s h l =
    Sat-bind _ (λ x. Kept s x.1) (λ (x : Bool × State). IsSound x.1) (eval k root s) _
      (eval-Keeps k root s h l) (λ x o. reported-IsSound _ x.1 x.1.error o.sound)

-- The parser ends for all tokens, and what it accepts runs after `gk_init` without a read of a node
-- or a child that nobody made and without a write behind an array, where a name that does not fit
-- its buffer needs a node with such a text, and keeps the bounds.
pub run_tree-IsSound :
    (k : ℕ) (tokens : List Token) (s : State)
    → Tokens.Sat
        (λ (r : ℕ × Parser).
          Sat
            (HasLong r.1.nodes)
            (λ (x : Bool × State). IsSound x.1)
            (run_tree k r.0 (record (gk_init s) { nodes = r.1.nodes })))
        (gk_parse tokens)
run_tree-IsSound k tokens s =
    Tokens.Sat-map IsTree _ (gk_parse tokens) (gk_parse-IsTree tokens) (λ r tree.
      run_tree-bounded k r.0 (record (gk_init s) { nodes = r.1.nodes })
        (start-IsSound s r.1.nodes tree.done) (omega (arith, tree.root, tree.some_node)))

Sat-ne-bad_read : (L : Type 0) {A : Type 0} (P : A → Type 0) (r : Ran A) → Sat L P r → r ≢ bad_read
Sat-ne-bad_read L P r h e = subst (Sat L P) e h

run_tokens-ne-bad_read :
    (k : ℕ) (s : State) (p : Parsed (ℕ × Parser))
    → Tokens.Sat
        (λ (r : ℕ × Parser).
          Sat
            (HasLong r.1.nodes)
            (λ (x : Bool × State). IsSound x.1)
            (run_tree k r.0 (record (gk_init s) { nodes = r.1.nodes })))
        p
    → run_tokens k p (gk_init s) ≢ bad_read
unfolding run_tokens
run_tokens-ne-bad_read k s (parsed r) h = Sat-ne-bad_read _ _ _ h
run_tokens-ne-bad_read k s (failed m) h = λ e. absurd (cc)
run_tokens-ne-bad_read k s Ast.overrun h = λ e. absurd (cc)
run_tokens-ne-bad_read k s Ast.out_of_fuel h = absurd h

-- After `gk_init`, a run of any source with any fuel never reads a node or a child that nobody
-- made.
pub gk_run-ne-bad_read :
    (k : ℕ) (source : List ℕ) (s : State) → gk_run k source (gk_init s) ≢ bad_read
unfolding gk_run run_lexed gk_init
gk_run-ne-bad_read k source s = lexed_source (gk_lex source)
  where
    lexed_source : (l : Lexed (List Token)) → run_lexed k l (gk_init s) ≢ bad_read
    lexed_source (Token.lexed ts) =
        run_tokens-ne-bad_read k s (gk_parse ts) (run_tree-IsSound k ts s)
    lexed_source (Token.failed m) = λ e. absurd (cc)
    lexed_source Token.stack_overflow = λ e. absurd (cc)
    lexed_source Token.out_of_fuel = λ e. absurd (cc)
