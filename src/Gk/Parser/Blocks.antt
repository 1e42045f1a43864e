-- ===== src/Gk/Parser/Blocks.antt =====
-- Blocks and the simpler statements: with fewer tokens than rounds each of them ends and adds
-- complete nodes only.
use gecko_os_mac_compatabili.Common.{
  ℕ, zero, suc, ◌≤◌, ◌<◌, ◌≡◌, refl, ap, ◌∙◌, sym, subst, List, [], ◌∷◌, ◌||◌, arith, length, leb,
  Bool-cases, inl, inr,
}
use gecko_os_mac_compatabili.Gk.Token.{
  tok_ident, tok_colon, tok_in, tok_newline, tok_indent, tok_dedent, tok_eof,
}
use gecko_os_mac_compatabili.Gk.Ast.{
  NodeType, Node, node_assign, node_while, node_for, node_return, node_block, empty_node, Parser,
  ParseError, parsed, ◌>>=◌, Parses, block_too_large, expected_block, expected_colon_while,
  expected_colon_for, expected_in, peek, advance, check, match_token, expect, skip_newlines,
  add_node, set_children,
}
use gecko_os_mac_compatabili.Gk.Ast.Grown.{HasArity, length-Grown}
use gecko_os_mac_compatabili.Gk.Ast.Tokens.{
  Sat, Sat-bind, Sat-map, Later, Past, advance-Later, expect-Past, match_token-Later,
  length-drop_newlines,
}
use gecko_os_mac_compatabili.Gk.Ast.Made.{
  Made, Made-same, Covers, Opened, add_node-Opened, Opened-Grown, Opened-Made, HasRoom,
  set_children-Made, advance-Made,
}
use gecko_os_mac_compatabili.Gk.Parser.Loops.{match_token-Made, parse_statements-HasRoom}
use gecko_os_mac_compatabili.Gk.Parser.{
  parse_statements, ends_block, parse_block, parse_body, parse_return, parse_head, parse_while,
  parse_for, parse_assign, name_size,
}

-- `stmt` and `expr` parse what is nested in a statement.
module _ (expr stmt : Parses) (m k : ℕ) (nested : Covers (suc m) expr) (inner : Covers m stmt)
    (enough : m < k) where
  parse_block-Made :
      (s : Parser) (n : ℕ)
      → length s.rest ≤ m
      → length s.rest ≤ n
      → Sat (Made s n) (parse_block stmt k s)
  unfolding parse_block
  parse_block-Made s n l b =
      Sat-bind (Past s) (Made s n) (expect tok_indent expected_block s) _
        (expect-Past tok_indent expected_block s refl)
        (λ t p.
          Sat-bind
            (λ r. Opened t r.0 (empty_node node_block (peek s).line) r.1 × (r.1.rest ≡ t.rest))
            (Made s n) (add_node (empty_node node_block (peek s).line) t) _
            (add_node-Opened (empty_node node_block (peek s).line) t refl)
            (λ r o.
              statements s t n r.0 r.1 o.0 p.0
                (omega (arith, p.1, ap length o.1, length-drop_newlines r.1.rest)) l b))
    where
      statements :
          (s t : Parser) (n i : ℕ) (u : Parser)
          → Opened t i (empty_node node_block (peek s).line) u
          → t.nodes ≡ s.nodes
          → length (skip_newlines u).rest < length s.rest
          → length s.rest ≤ m
          → length s.rest ≤ n
          → Sat (Made s n) (
              parse_statements ends_block block_too_large stmt k i (skip_newlines u) >>= λ v.
              parsed (i, match_token v tok_dedent))
      statements s t n i u o same l c b =
          Sat-bind (λ v. HasRoom t i node_block v × (length v.rest ≤ length (skip_newlines u).rest))
            (Made s n) (parse_statements ends_block block_too_large stmt k i (skip_newlines u)) _
            (parse_statements-HasRoom ends_block (λ t h. ground (arith, h)) block_too_large stmt m
              inner k i t (skip_newlines u) node_block
              (record {
                node = _;
                opened = record { opened = o.opened; index = o.index };
                same_type = refl;
                bounded = omega arith;
              })
              (omega arith) (omega arith))
            (λ v p. match_token-Made s n i v tok_dedent (
              Made-same t s n (i, v) same
                (Opened-Made t i n p.0.node v p.0.opened
                  (subst (λ (ty : NodeType). HasArity ty p.0.node.children) (sym p.0.same_type)
                    (omega arith, p.0.bounded))
                  (omega (arith, p.1)))))

  pub parse_body-Made :
      (error : ParseError) (s : Parser) (n : ℕ)
      → length s.rest ≤ m
      → length s.rest ≤ n
      → Sat (Made s n) (parse_body stmt k error s)
  unfolding parse_body
  parse_body-Made error s n l b =
      Sat-bind (Past s) (Made s n) (expect tok_colon error s) _ (expect-Past tok_colon error s refl)
        (λ t p.
          let later : Later t (match_token t tok_newline) = match_token-Later t tok_newline in
          Sat-map (Made (match_token t tok_newline) n) (Made s n)
            (parse_block stmt k (match_token t tok_newline))
            (parse_block-Made (match_token t tok_newline) n (omega (arith, p.1, later.fewer))
              (omega (arith, p.1, later.fewer)))
            (λ v. Made-same (match_token t tok_newline) s n v (later.same_nodes ∙ p.0)))

  -- After an expression of a node whose children stay as they are: they are set at the end.
  set_one-Made :
      (i : ℕ) (x : Node) (s t : Parser) (n : ℕ)
      → Opened s i x t
      → HasArity x.type (zero ∷ [])
      → length t.rest ≤ m
      → length t.rest ≤ n
      → Sat
          (Made s n)
          (expr t >>= λ r. parsed (i, match_token (set_children i (r.0 ∷ []) r.1) tok_newline))
  set_one-Made i x s t n o a l b =
      Sat-bind (Made t n) (Made s n) (expr t) _ (nested t n (omega arith) (omega arith)) (λ r made.
        match_token-Made s n i (set_children i (r.0 ∷ []) r.1) tok_newline (
          set_children-Made s i (r.0 ∷ []) x r.1 n (Opened-Grown s i x t r.1 o made.grown)
            (made.index, tt) a made.left))

  pub parse_return-Made :
      (line : ℕ) (s : Parser) (n : ℕ)
      → length s.rest ≤ m
      → length s.rest ≤ n
      → Sat (Made s n) (parse_return expr line s)
  unfolding parse_return
  parse_return-Made line s n l b =
      Sat-bind (λ r. Opened s r.0 (empty_node node_return line) r.1 × (r.1.rest ≡ s.rest))
        (Made s n) (add_node (empty_node node_return line) s) _
        (add_node-Opened (empty_node node_return line) s refl)
        (λ r o. elim (Bool-cases (check r.1 tok_newline || check r.1 tok_eof)) [
          | inl alone ↦ rw alone (
              match_token-Made s n r.0 r.1 tok_newline (
                Opened-Made s r.0 n (empty_node node_return line) r.1 o.0 (omega arith, omega arith)
                  (omega (arith, ap length o.1))))
          | inr value ↦ rw value (
              set_one-Made r.0 (empty_node node_return line) s r.1 n o.0 (omega arith, omega arith)
                (omega (arith, ap length o.1)) (omega (arith, ap length o.1)))
        ])

  pub parse_assign-Made :
      (name : List ℕ) (line : ℕ) (s : Parser) (n : ℕ)
      → length s.rest ≤ m
      → length s.rest ≤ n
      → Sat (Made s n) (parse_assign expr name line s)
  unfolding parse_assign
  parse_assign-Made name line s n l b =
      let x : Node = record (empty_node node_assign line) { str_val = name } in
      elim (Bool-cases (leb name_size (length name))) [
        | inl long ↦ rw (long, parse_assign) tt
        | inr fits ↦
            rw (fits, parse_assign)
              (Sat-bind (λ r. Opened s r.0 x r.1 × (r.1.rest ≡ s.rest)) (Made s n) (add_node x s) _
                (add_node-Opened x s refl)
                (λ r o.
                  set_one-Made r.0 x s r.1 n o.0 (omega arith, omega arith)
                    (omega (arith, ap length o.1)) (omega (arith, ap length o.1))))
      ]

  parse_head-Made :
      (error : ParseError) (i : ℕ) (x : Node) (s t : Parser) (n : ℕ)
      → Opened s i x t
      → HasArity x.type (zero ∷ zero ∷ [])
      → length t.rest ≤ m
      → length t.rest ≤ n
      → Sat (Made s n) (parse_head expr stmt k error i t)
  unfolding parse_head
  parse_head-Made error i x s t n o a l b =
      Sat-bind (Made t (length t.rest)) (Made s n) (expr t) _
        (nested t (length t.rest) (omega arith) (omega arith))
        (λ c made.
          Sat-bind (Made c.1 n) (Made s n) (parse_body stmt k error c.1) _
            (parse_body-Made error c.1 n (omega (arith, made.left)) (omega (arith, made.left)))
            (λ v body.
              set_children-Made s i (c.0 ∷ v.0 ∷ []) x v.1 n
                (Opened-Grown s i x c.1 v.1 (Opened-Grown s i x t c.1 o made.grown) body.grown)
                (omega (arith, made.index, length-Grown body.grown), (body.index, tt)) a body.left))

  pub parse_while-Made :
      (line : ℕ) (s : Parser) (n : ℕ)
      → length s.rest ≤ m
      → length s.rest ≤ n
      → Sat (Made s n) (parse_while expr stmt k line s)
  unfolding parse_while
  parse_while-Made line s n l b =
      Sat-bind (λ r. Opened s r.0 (empty_node node_while line) r.1 × (r.1.rest ≡ s.rest)) (Made s n)
        (add_node (empty_node node_while line) s) _
        (add_node-Opened (empty_node node_while line) s refl)
        (λ r o.
          parse_head-Made expected_colon_while r.0 (empty_node node_while line) s r.1 n o.0
            (omega arith, omega arith) (omega (arith, ap length o.1))
            (omega (arith, ap length o.1)))

  pub parse_for-Made :
      (line : ℕ) (s : Parser) (n : ℕ)
      → length s.rest ≤ m
      → length s.rest ≤ n
      → Sat (Made s n) (parse_for expr stmt k line s)
  unfolding parse_for
  parse_for-Made line s n l b = elim (Bool-cases (check s tok_ident)) [
    | inr no_name ↦ rw no_name tt
    | inl name ↦
        let x : Node = record (empty_node node_for line) { str_val = (peek s).str_val } in
        rw name (
          advance-Made s tok_ident n _ name refl (
            Sat-bind (Past (advance s)) (Made (advance s) n) (expect tok_in expected_in (advance s))
              _ (expect-Past tok_in expected_in (advance s) refl)
              (λ t p.
                Sat-bind (λ r. Opened t r.0 x r.1 × (r.1.rest ≡ t.rest)) (Made (advance s) n)
                  (add_node x t) _ (add_node-Opened x t refl)
                  (λ r o.
                    let shorter : length r.1.rest < length s.rest =
                      omega (arith, ap length o.1, p.1, (advance-Later s).fewer) in
                    Sat-map (Made t n) (Made (advance s) n) _
                      (parse_head-Made expected_colon_for r.0 x t r.1 n o.0
                        (omega arith, omega arith) (omega arith) (omega arith))
                      (λ v. Made-same t (advance s) n v p.0)))))
  ]
