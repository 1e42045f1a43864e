-- ===== src/Gk/Expr/Nodes.antt =====
-- Parsing an expression ends, takes at least one token, and adds complete nodes only.
use gecko_os_mac_compatabili.Common.{
  ℕ, zero, suc, ◌-◌, ◌≤◌, ◌<◌, ◌≡◌, refl, ap, sym, subst, Bool, true, false, List, [], ◌∷◌, ◌||◌,
  if◌then◌else◌, arith, length, Bool-cases, inl, inr,
}
use gecko_os_mac_compatabili.Gk.Token.{
  TokenType, tok_int, tok_str, tok_ident, tok_minus, tok_not, tok_lparen, tok_rparen, tok_comma,
  tok_true, tok_false, tok_eof,
}
use gecko_os_mac_compatabili.Gk.Ast.{
  NodeType, node_bool, node_var, node_binop, node_call, node_print, node_range, node_input,
  node_int_cast, Node, empty_node, Parser, Parsed, parsed, ◌>>=◌, Parses, too_many_arguments,
  expected_rparen, expected_rparen_arguments, ◌is◌, peek, advance, check, expect, add_node,
  add_child,
}
use gecko_os_mac_compatabili.Gk.Ast.Grown.{least, HasArity, Grown, Grown-refl, length-Grown}
use gecko_os_mac_compatabili.Gk.Ast.Tokens.{
  Sat, Sat-bind, Sat-map, Past, advance-Past, check-advance-Past, expect-Past,
}
use gecko_os_mac_compatabili.Gk.Ast.Made.{
  Made, leaf, Made-same, Made-then, Covers, add_node-Made, Opened, add_node-Opened, Opened-Made,
  HasRoom, HasRoom-Grown, HasRoom-same, add_child-HasRoom,
}
use gecko_os_mac_compatabili.Gk.Expr.{
  call_type, parse_args, parse_call, parse_name, parse_primary, parse_unary, parse_operators,
  parse_level, is_mul, is_add, is_cmp, is_and, is_or, parse_mul, parse_add, parse_cmp, parse_and,
  parse_or, parse_expr, unary_node, is_mul, is_add, is_cmp, is_and, is_or,
}

many_children :
    (a b c d : Bool) (cs : List ℕ)
    → length cs ≤ 64
    → HasArity
        (if a
          then node_int_cast
          else if b
          then node_input
          else if c
          then node_range
          else if d
          then node_print
          else node_call)
        cs
many_children true b c d cs h = (omega arith, h)
many_children false true c d cs h = (omega arith, h)
many_children false false true d cs h = (omega arith, h)
many_children false false false true cs h = (omega arith, h)
many_children false false false false cs h = (omega arith, h)

call_type-arity : (name cs : List ℕ) → length cs ≤ 64 → HasArity (call_type name) cs
unfolding call_type
call_type-arity name cs h = many_children _ _ _ _ cs h

module _ (expr : Parses) (m : ℕ) (inner : Covers m expr) where
  parse_args-HasRoom :
      (k i : ℕ) (s t : Parser) (type : NodeType)
      → HasRoom s i type t
      → length t.rest < m
      → length t.rest < k
      → Sat (λ u. HasRoom s i type u × (length u.rest ≤ length t.rest)) (parse_args expr k i t)
  unfolding parse_args
  parse_args-HasRoom zero i s t type r l h = absurd (omega arith)
  parse_args-HasRoom (suc k) i s t type r l h =
      elim (Bool-cases (check t tok_rparen || check t tok_eof)) [
        | inl end ↦ rw (end, parse_args) (r, omega arith)
        | inr more ↦
            let some_left : 0 < length t.rest =
              omega (arith, (advance-Past t (ground (arith, more))).1) in
            rw (more, parse_args)
              (Sat-bind (Made t (length t.rest - 1))
                (λ u. HasRoom s i type u × (length u.rest ≤ length t.rest)) (expr t) _
                (inner t (length t.rest - 1) l (omega arith))
                (λ e made.
                  Sat-bind (λ u. HasRoom s i type u × (u.rest ≡ e.1.rest))
                    (λ u. HasRoom s i type u × (length u.rest ≤ length t.rest))
                    (add_child too_many_arguments i e.0 e.1) _
                    (add_child-HasRoom too_many_arguments s i e.0 type e.1
                      (HasRoom-Grown s i type t e.1 r made.grown) made.index)
                    (λ u held.
                      after_argument k i s type t u held.0
                        (omega (arith, ap length held.1, made.left))
                        (λ v. parse_args-HasRoom k i s v type) (omega arith) (omega arith))))
      ]
    where
      after_argument :
          (k i : ℕ) (s : Parser) (type : NodeType) (t u : Parser)
          → HasRoom s i type u
          → length u.rest < length t.rest
          → ((v : Parser)
              → HasRoom s i type v
              → length v.rest < m
              → length v.rest < k
              → Sat
                  (λ w. HasRoom s i type w × (length w.rest ≤ length v.rest))
                  (parse_args expr k i v))
          → length t.rest < m
          → length t.rest < suc k
          → Sat
              (λ w. HasRoom s i type w × (length w.rest ≤ length t.rest))
              (elim (check u tok_comma) [
                | true ↦ parse_args expr k i (advance u)
                | false ↦ parsed u
              ])
      after_argument k i s type t u r l rec p q = elim (Bool-cases (check u tok_comma)) [
        | inr last ↦ rw last (r, omega arith)
        | inl comma ↦
            let (same, shorter) = check-advance-Past u tok_comma comma refl in
            rw comma (
              Sat-map (λ w. HasRoom s i type w × (length w.rest ≤ length (advance u).rest))
                (λ w. HasRoom s i type w × (length w.rest ≤ length t.rest))
                (parse_args expr k i (advance u))
                (rec (advance u) (HasRoom-same s i type u (advance u) r same) (omega arith)
                  (omega arith))
                (λ w h. (h.0, omega (arith, h.1))))
      ]

  parse_call-Made :
      (k : ℕ) (name : List ℕ) (line : ℕ) (s : Parser) (n : ℕ)
      → length s.rest < m
      → length s.rest < k
      → length s.rest ≤ n
      → Sat (Made s n) (parse_call expr k name line s)
  unfolding parse_call
  parse_call-Made k name line s n l h b =
      let x : Node = record (empty_node (call_type name) line) { str_val = name } in
      Sat-bind (λ r. Opened s r.0 x r.1 × (r.1.rest ≡ s.rest)) (Made s n) (add_node x s) _
        (add_node-Opened x s refl)
        (λ r o.
          let same : length r.1.rest ≡ length s.rest = ap length o.1 in
          Sat-bind (λ u. HasRoom s r.0 (call_type name) u × (length u.rest ≤ length r.1.rest))
            (Made s n) (parse_args expr k r.0 r.1) _
            (parse_args-HasRoom k r.0 s r.1 (call_type name)
              (record { node = x; opened = o.0; same_type = refl; bounded = omega arith })
              (omega arith) (omega arith))
            (λ t p.
              Sat-bind (Past t) (Made s n) (expect tok_rparen expected_rparen_arguments t) _
                (expect-Past tok_rparen expected_rparen_arguments t refl)
                (λ u q.
                  closed k name s n r.0 u (HasRoom-same s r.0 (call_type name) t u p.0 q.0)
                    (omega (arith, p.1, q.1)))))
    where
      closed :
          (k : ℕ) (name : List ℕ) (s : Parser) (n i : ℕ) (u : Parser)
          → HasRoom s i (call_type name) u
          → length u.rest ≤ n
          → Made s n (i, u)
      closed k name s n i u r l =
          Opened-Made s i n r.node u r.opened
            (subst (λ (ty : NodeType). HasArity ty r.node.children) (sym r.same_type)
              (call_type-arity name r.node.children r.bounded))
            l

  parse_name-Made :
      (k : ℕ) (name : List ℕ) (line : ℕ) (s : Parser) (n : ℕ)
      → length s.rest < m
      → length s.rest < k
      → length s.rest ≤ n
      → Sat (Made s n) (parse_name expr k name line s)
  unfolding parse_name
  parse_name-Made k name line s n l h b = elim (Bool-cases (check s tok_lparen)) [
    | inr plain ↦ rw plain (
        add_node-Made (record (empty_node node_var line) { str_val = name }) s n
          (leaf _ _ refl refl) b)
    | inl call ↦
        let (same, shorter) = check-advance-Past s tok_lparen call refl in
        rw call (
          Sat-map (Made (advance s) n) (Made s n) (parse_call expr k name line (advance s))
            (parse_call-Made k name line (advance s) n (omega arith) (omega arith) (omega arith))
            (λ r. Made-same (advance s) s n r same))
  ]

  -- After the first token.
  primary_leaf :
      (x : Node) (s : Parser) (n : ℕ) (type : TokenType)
      → check s type ≡ true
      → (type is tok_eof) ≡ false
      → length s.rest ≤ suc n
      → x.children ≡ []
      → least x.type ≡ 0
      → Sat (Made s n) (add_node x (advance s))
  primary_leaf x s n type here e l c a =
      let (same, shorter) = check-advance-Past s type here e in
      Sat-map (Made (advance s) n) (Made s n) (add_node x (advance s))
        (add_node-Made x (advance s) n (leaf _ x c a) (omega arith))
        (λ r. Made-same (advance s) s n r same)

  parse_parenthesis-Made :
      (s : Parser) (n : ℕ)
      → check s tok_lparen ≡ true
      → length s.rest ≤ m
      → length s.rest ≤ suc n
      → Sat
          (Made s n)
          (expr (advance s) >>= λ r. expect tok_rparen expected_rparen r.1 >>= λ u. parsed (r.0, u))
  parse_parenthesis-Made s n here l b =
      let (same, shorter) = check-advance-Past s tok_lparen here refl in
      Sat-bind (Made (advance s) n) (Made s n) (expr (advance s)) _
        (inner (advance s) n (omega arith) (omega arith))
        (λ r h.
          Sat-bind (Past r.1) (Made s n) (expect tok_rparen expected_rparen r.1) _
            (expect-Past tok_rparen expected_rparen r.1 refl)
            (λ u q. record {
              grown =
                  subst (λ (ns : List Node). Grown ns u.nodes) same
                    (subst (Grown (advance s).nodes) (sym q.0) h.grown);
              index = omega (arith, h.index, ap length q.0);
              left = omega (arith, h.left, q.1);
            }))

  parse_primary-Made :
      (k : ℕ) (s : Parser) (n : ℕ)
      → length s.rest ≤ m
      → length s.rest ≤ k
      → length s.rest ≤ suc n
      → Sat (Made s n) (parse_primary expr k s)
  unfolding parse_primary
  parse_primary-Made k s n l j b = elim (Bool-cases ((peek s).type is tok_int)) [
    | inl int ↦ rw int (primary_leaf _ s n tok_int int refl b refl refl)
    | inr no_int ↦ elim (Bool-cases ((peek s).type is tok_str)) [
      | inl str ↦ rw (no_int, str) (primary_leaf _ s n tok_str str refl b refl refl)
      | inr no_str ↦ elim (Bool-cases ((peek s).type is tok_true || (peek s).type is tok_false)) [
        | inl bool ↦ rw (no_int, no_str, bool) (boolean s n bool b)
        | inr no_bool ↦ elim (Bool-cases ((peek s).type is tok_ident)) [
          | inl ident ↦
              let (same, shorter) = check-advance-Past s tok_ident ident refl in
              rw (no_int, no_str, no_bool, ident)
                (Sat-map (Made (advance s) n) (Made s n) _
                  (parse_name-Made k (peek s).str_val (peek s).line (advance s) n (omega arith)
                    (omega arith) (omega arith))
                  (λ r. Made-same (advance s) s n r same))
          | inr no_ident ↦ elim (Bool-cases ((peek s).type is tok_lparen)) [
            | inl paren ↦
                rw (no_int, no_str, no_bool, no_ident, paren)
                  (parse_parenthesis-Made s n paren (omega arith) b)
            | inr other ↦ rw (no_int, no_str, no_bool, no_ident, other) tt
          ]
        ]
      ]
    ]
  ]
    where
      boolean :
          (s : Parser) (n : ℕ)
          → ((peek s).type is tok_true || (peek s).type is tok_false) ≡ true
          → length s.rest ≤ suc n
          → Sat (Made s n) (
              add_node
                (record (empty_node node_bool (peek s).line) {
                  int_val = if (peek s).type is tok_true then 1 else 0;
                })
                (advance s))
      boolean s n h b = elim (Bool-cases ((peek s).type is tok_true)) [
        | inl t ↦ primary_leaf _ s n tok_true t refl b refl refl
        | inr f ↦ primary_leaf _ s n tok_false (ground (arith, f, h)) refl b refl refl
      ]

  unary-Made :
      (op : TokenType) (s : Parser) (n : ℕ) (line : ℕ) (u : Parsed (ℕ × Parser))
      → check s op ≡ true
      → (op is tok_eof) ≡ false
      → length s.rest ≤ suc n
      → Sat (Made (advance s) n) u
      → Sat (Made s n) (u >>= unary_node op line)
  unary-Made op s n line u here e l h =
      Sat-bind (Made (advance s) n) (Made s n) u (unary_node op line) h (λ r made.
        Sat-map (Made r.1 n) (Made s n) _
          (add_node-Made _ r.1 n
            (record { arity = (omega arith, omega arith); below = (omega (arith, made.index), tt) })
            made.left)
          (λ v w.
            Made-same (advance s) s n v (check-advance-Past s op here e).0
              (Made-then (advance s) r.1 n v made.grown w)))

  parse_unary-Made :
      (k : ℕ) (s : Parser) (n : ℕ)
      → length s.rest ≤ m
      → length s.rest < k
      → length s.rest ≤ suc n
      → Sat (Made s n) (parse_unary expr k s)
  unfolding parse_unary
  parse_unary-Made zero s n l j b = absurd (omega arith)
  parse_unary-Made (suc k) s n l j b = elim (Bool-cases (check s tok_minus)) [
    | inl minus ↦
        let (same, shorter) = check-advance-Past s tok_minus minus refl in
        rw (minus, parse_unary)
          (unary-Made tok_minus s n (peek s).line (parse_unary expr k (advance s)) minus refl b
            (parse_unary-Made k (advance s) n (omega arith) (omega arith) (omega arith)))
    | inr no_minus ↦ elim (Bool-cases (check s tok_not)) [
      | inl negation ↦
          let (same, shorter) = check-advance-Past s tok_not negation refl in
          rw (no_minus, negation, parse_unary)
            (unary-Made tok_not s n (peek s).line (parse_unary expr k (advance s)) negation refl b
              (parse_unary-Made k (advance s) n (omega arith) (omega arith) (omega arith)))
      | inr primary ↦
          rw (no_minus, primary, parse_unary) (parse_primary-Made k s n l (omega arith) b)
    ]
  ]

module _ (test : TokenType → Bool)
    (not_last : (t : TokenType) → test t ≡ true → (t is tok_eof) ≡ false) (m : ℕ) (operand : Parses)
    (level : Covers (suc m) operand) where
  operator_node-Made :
      (left : ℕ) (s : Parser) (n : ℕ) (r : ℕ × Parser)
      → left < length s.nodes
      → test (peek s).type ≡ true
      → Made (advance s) n r
      → Sat (Made s n) (
          add_node
            (record (empty_node node_binop (peek s).line) {
              op = (peek s).type;
              children = left ∷ r.0 ∷ [];
            })
            r.1)
  operator_node-Made left s n r i here made =
      let (same, shorter) = advance-Past s (not_last (peek s).type here) in
      Sat-map (Made r.1 n) (Made s n) _
        (add_node-Made _ r.1 n
          (record {
            arity = (omega arith, omega arith);
            below = (
              omega (arith, i, ap length same, length-Grown made.grown),
              (omega (arith, made.index), tt),
            );
          })
          made.left)
        (λ v w. Made-same (advance s) s n v same (Made-then (advance s) r.1 n v made.grown w))

  parse_operators-Made :
      (k left : ℕ) (s : Parser) (n : ℕ)
      → left < length s.nodes
      → length s.rest ≤ m
      → length s.rest < k
      → length s.rest ≤ n
      → Sat (Made s n) (parse_operators test operand k left s)
  unfolding parse_operators
  parse_operators-Made zero left s n i l j b = absurd (omega arith)
  parse_operators-Made (suc k) left s n i l j b = elim (Bool-cases (test (peek s).type)) [
    | inr done ↦
        rw (done, parse_operators) (record { grown = Grown-refl s.nodes; index = i; left = b })
    | inl more ↦
        let (same, shorter) = advance-Past s (not_last (peek s).type more) in
        rw (more, parse_operators)
          (Sat-bind (Made (advance s) (length s.rest - 1)) (Made s n) (operand (advance s)) _
            (level (advance s) (length s.rest - 1) (omega arith) (omega arith))
            (λ r made.
              Sat-bind (Made s (length s.rest - 1)) (Made s n) _ _
                (operator_node-Made left s (length s.rest - 1) r i more made)
                (λ v w.
                  Sat-map (Made v.1 n) (Made s n) (parse_operators test operand k v.0 v.1)
                    (parse_operators-Made k v.0 v.1 n w.index (omega (arith, w.left))
                      (omega (arith, w.left)) (omega (arith, w.left)))
                    (λ x y. Made-then s v.1 n x w.grown y))))
  ]

  parse_level-Covers : (k : ℕ) → m < k → Covers (suc m) (parse_level test operand k)
  unfolding parse_level
  parse_level-Covers k enough s n l b =
      Sat-bind (Made s (length s.rest - 1)) (Made s n) (operand s) _
        (level s (length s.rest - 1) l (omega arith))
        (λ r made.
          Sat-map (Made r.1 n) (Made s n) (parse_operators test operand k r.0 r.1)
            (parse_operators-Made k r.0 r.1 n made.index (omega (arith, made.left))
              (omega (arith, made.left)) (omega (arith, made.left)))
            (λ x y. Made-then s r.1 n x made.grown y))

parse_unary-Covers :
    (expr : Parses) (m k : ℕ) → Covers m expr → m < k → Covers (suc m) (parse_unary expr k)
parse_unary-Covers expr m k inner enough s n l b =
    parse_unary-Made expr m inner k s n (omega arith) (omega arith) b

-- The levels from `*` to `or`.
parse_or-Covers :
    (expr : Parses) (m k : ℕ) → Covers m expr → m < k → Covers (suc m) (parse_or expr k)
unfolding parse_mul parse_add parse_cmp parse_and parse_or
parse_or-Covers expr m k inner enough =
    let unary = parse_unary-Covers expr m k inner enough in
    let mul =
      parse_level-Covers is_mul (λ t h. ground (arith, h)) m (parse_unary expr k) unary k enough in
    let add =
      parse_level-Covers is_add (λ t h. ground (arith, h)) m (parse_mul expr k) mul k enough in
    let cmp =
      parse_level-Covers is_cmp (λ t h. ground (arith, h)) m (parse_add expr k) add k enough in
    let conj =
      parse_level-Covers is_and (λ t h. ground (arith, h)) m (parse_cmp expr k) cmp k enough in
    parse_level-Covers is_or (λ t h. ground (arith, h)) m (parse_and expr k) conj k enough

pub parse_expr-Covers : (m k : ℕ) → m < k → Covers m (parse_expr k)
unfolding parse_expr
parse_expr-Covers m zero enough = absurd (omega arith)
parse_expr-Covers zero (suc k) enough = λ s n l b. absurd (omega arith)
parse_expr-Covers (suc m) (suc k) enough =
    parse_or-Covers (parse_expr k) m k (parse_expr-Covers m k (omega arith)) (omega arith)
