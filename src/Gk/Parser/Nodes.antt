-- ===== src/Gk/Parser/Nodes.antt =====
-- Parsing a statement ends, takes at least one token, and adds complete nodes only.
use gecko_os_mac_compatabili.Common.{
  ℕ, zero, suc, ◌+◌, ◌≤◌, ◌<◌, ◌≡◌, refl, ap, sym, subst, true, false, List, [], ◌∷◌, ◌++◌, ◌||◌,
  ◌&&◌, if◌then◌else◌, arith, length, Bool-cases, inl, inr, length-append, drop,
}
use gecko_os_mac_compatabili.Gk.Token.{
  TokenType, tok_ident, tok_assign, tok_lparen, tok_rparen, tok_if, tok_elif, tok_else, tok_while,
  tok_for, tok_def, tok_return, tok_break, tok_continue, tok_newline, tok_eof, Token,
}
use gecko_os_mac_compatabili.Gk.Ast.{
  NodeType, Node, node_if, node_def, node_block, empty_node, Parser, parsed, ◌>>=◌, Parses,
  expected_rparen_parameters, expected_lparen, expected_colon_def, expected_colon_if,
  expected_colon_else, too_many_statements, ◌is◌, peek_at, peek, advance, check, match_token,
  expect, skip_newlines, add_node, set_children, add_child_unchecked,
}
use gecko_os_mac_compatabili.Gk.Ast.Grown.{
  least, AllBelow, HasArity, AllDone, AllBelow-snoc, Open-close, Grown, length-Grown, length-Open,
}
use gecko_os_mac_compatabili.Gk.Ast.Tokens.{
  Sat, Sat-bind, Sat-map, Later, Past, check-advance-Past, advance-Later, expect-Past,
  match_token-Later, length-drop_newlines,
}
use gecko_os_mac_compatabili.Gk.Ast.Made.{
  Made, leaf, Made-same, Covers, add_node-Made, Opened, add_node-Opened, Opened-Grown, Opened-Made,
  HasRoom, HasRoom-Grown, HasRoom-same, add_child_unchecked-Made, set_children-Made, advance-Made,
  set_children-Opened, Opened-same,
}
use gecko_os_mac_compatabili.Gk.Parser.Loops.{
  match_token-Made, parse_statements-HasRoom, parse_parameters-HasRoom,
}
use gecko_os_mac_compatabili.Gk.Parser.Blocks.{
  parse_body-Made, parse_return-Made, parse_assign-Made, parse_while-Made, parse_for-Made,
}
use gecko_os_mac_compatabili.Gk.Expr.{parse_expr}
use gecko_os_mac_compatabili.Gk.Expr.Nodes.{parse_expr-Covers}
use gecko_os_mac_compatabili.Gk.Parser.{
  parse_statements, parse_body, parse_return, parse_parameters, parse_def, parse_else, parse_if,
  parse_while, parse_for, parse_assign, parse_expr_stmt, parse_stmt_by, parse_stmt, ends_source,
  gk_parse,
}

-- `stmt` and `expr` parse what is nested in a statement.
module _ (expr stmt : Parses) (m k : ℕ) (nested : Covers (suc m) expr) (inner : Covers m stmt)
    (enough : m < k) where
  parse_else-Made :
      (i : ℕ) (both : List ℕ) (x : Node) (s t : Parser) (n : ℕ)
      → Opened s i x t
      → x.type ≡ node_if
      → x.children ≡ both
      → length both ≡ 2
      → length t.rest < m
      → length t.rest ≤ n
      → Sat (Made s n) (parse_else stmt k i both t)
  unfolding parse_else
  parse_else-Made i both x s t n o if_node same two l b = elim (Bool-cases (check t tok_elif)) [
    | inl elif ↦ rw elif (
        Sat-bind (Made t n) (Made s n) (stmt t) _ (inner t n l (omega arith)) (λ e made.
          with_else e.0 n e.1 (Opened-Grown s i x t e.1 o made.grown) made.index made.left))
    | inr no_elif ↦ elim (Bool-cases (check t tok_else)) [
      | inl otherwise ↦
          let (nodes, shorter) = check-advance-Past t tok_else otherwise refl in
          rw (no_elif, otherwise)
            (Sat-bind (Made t n) (Made s n) (parse_body stmt k expected_colon_else (advance t)) _
              (advance-Made t tok_else n _ otherwise refl (
                parse_body-Made expr stmt m k nested inner enough expected_colon_else (advance t) n
                  (omega arith) (omega arith)))
              (λ e made.
                with_else e.0 n e.1 (Opened-Grown s i x t e.1 o made.grown) made.index made.left))
      | inr none ↦
          rw (no_elif, none)
            (Opened-Made s i n x t o
              (subst (λ (ty : NodeType). HasArity ty x.children) (sym if_node)
                (omega (arith, ap length same), omega (arith, ap length same)))
              b)
    ]
  ]
    where
      with_else :
          (e n : ℕ) (u : Parser)
          → Opened s i x u
          → e < length u.nodes
          → length u.rest ≤ n
          → Made s n (i, set_children i (both ++ (e ∷ [])) u)
      with_else e n u o h b =
          set_children-Made s i (both ++ (e ∷ [])) x u n o
            (AllBelow-snoc (length u.nodes) both e
              (subst (AllBelow (length u.nodes)) same o.opened.below) h)
            (subst (λ (ty : NodeType). HasArity ty (both ++ (e ∷ []))) (sym if_node)
              (
                omega (arith, length-append both (e ∷ [])),
                omega (arith, length-append both (e ∷ [])),
              ))
            b

  parse_if-Made :
      (line : ℕ) (s : Parser) (n : ℕ)
      → length s.rest < m
      → length s.rest ≤ n
      → Sat (Made s n) (parse_if expr stmt k line s)
  unfolding parse_if
  parse_if-Made line s n l b =
      let x : Node = empty_node node_if line in
      Sat-bind (λ r. Opened s r.0 x r.1 × (r.1.rest ≡ s.rest)) (Made s n) (add_node x s) _
        (add_node-Opened x s refl)
        (λ r o.
          let same : length r.1.rest ≡ length s.rest = ap length o.1 in
          Sat-bind (Made r.1 (length s.rest)) (Made s n) (expr r.1) _
            (nested r.1 (length s.rest) (omega arith) (omega arith))
            (λ c made.
              Sat-bind (Made c.1 (length s.rest)) (Made s n)
                (parse_body stmt k expected_colon_if c.1) _
                (parse_body-Made expr stmt m k nested inner enough expected_colon_if c.1
                  (length s.rest) (omega (arith, made.left)) made.left)
                (λ v body.
                  let both : List ℕ = c.0 ∷ v.0 ∷ [] in
                  let u : Parser = set_children r.0 both v.1 in
                  let fewer : length (skip_newlines u).rest ≤ length s.rest =
                    omega (arith, body.left, length-drop_newlines v.1.rest) in
                  parse_else-Made r.0 both (record x { children = both }) s (skip_newlines u) n
                    (Opened-same s r.0 _ u (skip_newlines u)
                      (set_children-Opened s r.0 both x v.1
                        (Opened-Grown s r.0 x c.1 v.1 (Opened-Grown s r.0 x r.1 c.1 o.0 made.grown)
                          body.grown)
                        (omega (arith, made.index, length-Grown body.grown), (body.index, tt)))
                      refl)
                    refl refl refl (omega arith) (omega arith))))

  parse_def-Made :
      (line : ℕ) (s : Parser) (n : ℕ)
      → length s.rest ≤ m
      → length s.rest ≤ n
      → Sat (Made s n) (parse_def stmt k line s)
  unfolding parse_def
  parse_def-Made line s n l b = elim (Bool-cases (check s tok_ident)) [
    | inr no_name ↦ rw no_name tt
    | inl name ↦
        let x : Node = record (empty_node node_def line) { str_val = (peek s).str_val } in
        let t : Parser = advance s in
        let (_, shorter) = check-advance-Past s tok_ident name refl in
        rw name (
          advance-Made s tok_ident n _ name refl (
            Sat-bind (λ r. Opened t r.0 x r.1 × (r.1.rest ≡ t.rest)) (Made t n) (add_node x t) _
              (add_node-Opened x t refl)
              (λ r o.
                parameters t r.1 n r.0
                  (record { node = x; opened = o.0; same_type = refl; bounded = omega arith })
                  (omega (arith, ap length o.1, shorter)) (omega (arith, ap length o.1, shorter)))))
  ]
    where
      parameters :
          (s t : Parser) (n i : ℕ)
          → HasRoom s i node_def t
          → length t.rest ≤ m
          → length t.rest ≤ n
          → Sat (Made s n) (
              expect tok_lparen expected_lparen t >>= λ u. parse_parameters k i u >>= λ v.
              expect tok_rparen expected_rparen_parameters v >>= λ w.
              parse_body stmt k expected_colon_def w >>= λ b.
              add_child_unchecked i b.0 b.1 >>= λ y. parsed (i, y))
      parameters s t n i r l c =
          Sat-bind (Past t) (Made s n) (expect tok_lparen expected_lparen t) _
            (expect-Past tok_lparen expected_lparen t refl)
            (λ u p.
              Sat-bind (λ v. HasRoom s i node_def v × (length v.rest ≤ length u.rest)) (Made s n)
                (parse_parameters k i u) _
                (parse_parameters-HasRoom k i s u node_def (HasRoom-same s i node_def t u r p.0)
                  (omega (arith, p.1)))
                (λ v q.
                  Sat-bind (Past v) (Made s n) (expect tok_rparen expected_rparen_parameters v) _
                    (expect-Past tok_rparen expected_rparen_parameters v refl)
                    (λ w e.
                      Sat-bind (Made w n) (Made s n) (parse_body stmt k expected_colon_def w) _
                        (parse_body-Made expr stmt m k nested inner enough expected_colon_def w n
                          (omega (arith, p.1, q.1, e.1)) (omega (arith, p.1, q.1, e.1)))
                        (λ b made.
                          add_child_unchecked-Made s i b.0 n b.1
                            (HasRoom-Grown s i node_def w b.1
                              (HasRoom-same s i node_def v w q.0 e.0) made.grown)
                            made.index made.left))))

  parse_expr_stmt-Made :
      (s : Parser) (n : ℕ)
      → length s.rest < suc m
      → length s.rest ≤ suc n
      → Sat (Made s n) (parse_expr_stmt expr s)
  unfolding parse_expr_stmt
  parse_expr_stmt-Made s n l b =
      Sat-bind (Made s n) (Made s n) (expr s) _ (nested s n l b)
        (λ r made. match_token-Made s n r.0 r.1 tok_newline made)

  -- `break` and `continue`.
  word-Made :
      (type : TokenType) (x : Node) (s : Parser) (n : ℕ)
      → check s type ≡ true
      → (type is tok_eof) ≡ false
      → length s.rest ≤ suc n
      → x.children ≡ []
      → least x.type ≡ 0
      → Sat (Made s n) (add_node x (match_token (advance s) tok_newline))
  word-Made type x s n here e b c a =
      let (_, shorter) = check-advance-Past s type here e in
      let t : Parser = match_token (advance s) tok_newline in
      let later : Later (advance s) t = match_token-Later (advance s) tok_newline in
      advance-Made s type n (add_node x t) here e (
        Sat-map (Made t n) (Made (advance s) n) (add_node x t)
          (add_node-Made x t n (leaf _ x c a) (omega (arith, later.fewer)))
          (λ v. Made-same t (advance s) n v later.same_nodes))

  assignment-Made :
      (s : Parser) (n : ℕ)
      → ((peek s).type is tok_ident && (peek_at (drop 1 s.rest)).type is tok_assign) ≡ true
      → length s.rest ≤ m
      → length s.rest ≤ suc n
      → Sat (Made s n) (parse_assign expr (peek s).str_val (peek s).line (advance (advance s)))
  assignment-Made s n h l b =
      let name : check s tok_ident ≡ true = ground (arith, h) in
      let (_, shorter) = check-advance-Past s tok_ident name refl in
      let later : Later (advance s) (advance (advance s)) = advance-Later (advance s) in
      advance-Made s tok_ident n _ name refl (
        Sat-map (Made (advance (advance s)) n) (Made (advance s) n) _
          (parse_assign-Made expr stmt m k nested inner enough (peek s).str_val (peek s).line
            (advance (advance s)) n (omega (arith, later.fewer)) (omega (arith, later.fewer)))
          (λ v. Made-same (advance (advance s)) (advance s) n v later.same_nodes))

  -- A statement that starts with a keyword.
  keyword-Made :
      (type : TokenType) (s : Parser) (n : ℕ) (parse : Parses)
      → check s type ≡ true
      → (type is tok_eof) ≡ false
      → length s.rest ≤ m
      → length s.rest ≤ suc n
      → ((t : Parser) → length t.rest < m → length t.rest ≤ n → Sat (Made t n) (parse t))
      → Sat (Made s n) (parse (advance s))
  keyword-Made type s n parse here e l b h =
      let (_, shorter) = check-advance-Past s type here e in
      advance-Made s type n (parse (advance s)) here e (h (advance s) (omega arith) (omega arith))

  parse_stmt_by-Covers : Covers (suc m) (parse_stmt_by expr stmt k)
  unfolding parse_stmt_by
  parse_stmt_by-Covers s n l b =
      let short : length s.rest ≤ m = omega arith in
      let line : ℕ = (peek s).line in
      elim (Bool-cases (check s tok_return)) [
        | inl a ↦ rw a (
            keyword-Made tok_return s n (parse_return expr line) a refl short b (λ t p q.
              parse_return-Made expr stmt m k nested inner enough line t n (omega arith) q))
        | inr a ↦ elim (Bool-cases (check s tok_break)) [
          | inl c ↦ rw (a, c) (word-Made tok_break _ s n c refl b refl refl)
          | inr c ↦ elim (Bool-cases (check s tok_continue)) [
            | inl d ↦ rw (a, c, d) (word-Made tok_continue _ s n d refl b refl refl)
            | inr d ↦ rw (a, c, d) (compound s n l b)
          ]
        ]
      ]
    where
      simple :
          (s : Parser) (n : ℕ)
          → length s.rest < suc m
          → length s.rest ≤ suc n
          → Sat (Made s n) (
              if (peek s).type is tok_ident && (peek_at (drop 1 s.rest)).type is tok_assign
              then parse_assign expr (peek s).str_val (peek s).line (advance (advance s))
              else parse_expr_stmt expr s)
      simple s n l b =
          elim (Bool-cases
            ((peek s).type is tok_ident && (peek_at (drop 1 s.rest)).type is tok_assign)) [
              | inl a ↦ rw a (assignment-Made s n a (omega arith) b)
              | inr a ↦ rw a (parse_expr_stmt-Made s n l b)
            ]

      compound :
          (s : Parser) (n : ℕ)
          → length s.rest < suc m
          → length s.rest ≤ suc n
          → Sat (Made s n) (
              if (peek s).type is tok_def
              then parse_def stmt k (peek s).line (advance s)
              else if (peek s).type is tok_if || (peek s).type is tok_elif
              then parse_if expr stmt k (peek s).line (advance s)
              else if (peek s).type is tok_while
              then parse_while expr stmt k (peek s).line (advance s)
              else if (peek s).type is tok_for
              then parse_for expr stmt k (peek s).line (advance s)
              else if (peek s).type is tok_ident && (peek_at (drop 1 s.rest)).type is tok_assign
              then parse_assign expr (peek s).str_val (peek s).line (advance (advance s))
              else parse_expr_stmt expr s)
      compound s n l b =
          let short : length s.rest ≤ m = omega arith in
          let line : ℕ = (peek s).line in
          elim (Bool-cases (check s tok_def)) [
            | inl a ↦ rw a (
                keyword-Made tok_def s n (parse_def stmt k line) a refl short b
                  (λ t p q. parse_def-Made line t n (omega arith) q))
            | inr a ↦ elim (Bool-cases (check s tok_if || check s tok_elif)) [
              | inl c ↦
                  rw (a, c)
                    (elim (Bool-cases (check s tok_if)) [
                      | inl e ↦
                          keyword-Made tok_if s n (parse_if expr stmt k line) e refl short b
                            (λ t p q. parse_if-Made line t n p q)
                      | inr e ↦
                          keyword-Made tok_elif s n (parse_if expr stmt k line)
                            (ground (arith, c, e)) refl short b
                            (λ t p q. parse_if-Made line t n p q)
                    ])
              | inr c ↦ elim (Bool-cases (check s tok_while)) [
                | inl d ↦
                    rw (a, c, d)
                      (keyword-Made tok_while s n (parse_while expr stmt k line) d refl short b
                        (λ t p q.
                          parse_while-Made expr stmt m k nested inner enough line t n (omega arith)
                            q))
                | inr d ↦ elim (Bool-cases (check s tok_for)) [
                  | inl e ↦
                      rw (a, c, d, e)
                        (keyword-Made tok_for s n (parse_for expr stmt k line) e refl short b
                          (λ t p q.
                            parse_for-Made expr stmt m k nested inner enough line t n (omega arith)
                              q))
                  | inr e ↦ rw (a, c, d, e) (simple s n l b)
                ]
              ]
            ]
          ]

parse_stmt-Covers : (m k : ℕ) → suc m < k → Covers m (parse_stmt k)
unfolding parse_stmt
parse_stmt-Covers m zero enough = absurd (omega arith)
parse_stmt-Covers zero (suc k) enough = λ s n l b. absurd (omega arith)
parse_stmt-Covers (suc m) (suc k) enough =
    parse_stmt_by-Covers (parse_expr k) (parse_stmt k) m k
      (parse_expr-Covers (suc m) k (omega arith)) (parse_stmt-Covers m k (omega arith))
      (omega arith)

-- A program: the root is the first node, and each node has as many children as a node of its type
-- may have, all of them nodes.
pub record IsTree (r : ℕ × Parser) : Type 0 where
  pub root : r.0 ≡ 0
  pub some_node : 0 < length r.1.nodes
  pub done : AllDone (length r.1.nodes) r.1.nodes

-- For every list of tokens the parser ends within its rounds; if it makes a tree, the root is
-- node 0, and every node has as many children as a node of its type may have, each the index of
-- a node.
pub gk_parse-IsTree : (tokens : List Token) → Sat IsTree (gk_parse tokens)
unfolding gk_parse
gk_parse-IsTree tokens =
    let s : Parser = record { rest = tokens; nodes = [] } in
    let k : ℕ = length tokens + 3 in
    let x : Node = empty_node node_block 0 in
    Sat-bind (λ r. Opened s r.0 x r.1 × (r.1.rest ≡ tokens)) IsTree (add_node x s) _
      (add_node-Opened x s refl)
      (λ r o.
        let t : Parser = skip_newlines r.1 in
        let fewer : length t.rest ≤ length tokens =
          omega (arith, ap length o.1, length-drop_newlines r.1.rest) in
        Sat-bind (λ u. HasRoom s r.0 node_block u × (length u.rest ≤ length t.rest)) IsTree
          (parse_statements ends_source too_many_statements (parse_stmt k) k r.0 t) _
          (parse_statements-HasRoom ends_source (λ t h. ground (arith, h)) too_many_statements
            (parse_stmt k) (suc (length tokens))
            (parse_stmt-Covers (suc (length tokens)) k (omega arith)) k r.0 s t node_block
            (record {
              node = x;
              opened = Opened-same s r.0 x r.1 t o.0 refl;
              same_type = refl;
              bounded = omega arith;
            })
            (omega arith) (omega arith))
          (λ u p. record {
            root = p.0.opened.index;
            some_node = length-Open p.0.opened.opened;
            done = all_done u.nodes (
                Open-close [] u.nodes p.0.node p.0.opened.opened (
                  subst (λ (ty : NodeType). HasArity ty p.0.node.children) (sym p.0.same_type)
                    (omega arith, p.0.bounded)));
          }))
  where
    all_done : (ns : List Node) → Grown [] ns → AllDone (length ns) ns
    all_done ns g = subst (AllDone (length ns)) (sym g.shape) g.done
