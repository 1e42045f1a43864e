-- ===== src/Gk/Parser/Loops.antt =====
-- The loops over the statements of a block and over parameters end, and add to one node at most as
-- many children as it has room for.
use gecko_os_mac_compatabili.Common.{
  ℕ, zero, suc, ◌-◌, ◌≤◌, ◌<◌, ◌≡◌, refl, ap, Bool, true, false, ◌||◌, arith, length, Bool-cases,
  inl, inr,
}
use gecko_os_mac_compatabili.Gk.Token.{TokenType, tok_ident, tok_rparen, tok_comma, tok_eof}
use gecko_os_mac_compatabili.Gk.Ast.{
  NodeType, Parser, ParseError, parsed, Parses, ◌is◌, peek, advance, check, match_token,
  drop_newlines, skip_newlines, add_child, add_child_unchecked,
}
use gecko_os_mac_compatabili.Gk.Ast.Tokens.{
  Sat, Sat-bind, Sat-map, advance-Past, check-advance-Past, match_token-Later, length-drop_newlines,
}
use gecko_os_mac_compatabili.Gk.Ast.Made.{
  Made, leaf, Made-left, Covers, add_node-Made, HasRoom, HasRoom-Grown, HasRoom-same,
  add_child-HasRoom, add_child_unchecked-HasRoom, advance-Made,
}
use gecko_os_mac_compatabili.Gk.Parser.{parse_statements, parse_parameters}

-- After the last token of a node.
pub match_token-Made :
    (s : Parser) (n i : ℕ) (t : Parser) (type : TokenType)
    → Made s n (i, t)
    → Made s n (i, match_token t type)
match_token-Made s n i t type h =
    Made-left s n n i t (match_token t type) h (match_token-Later t type)
      (omega (arith, h.left, (match_token-Later t type).fewer))

module _ (ends : TokenType → Bool)
    (ends_last : (t : TokenType) → ends t ≡ false → (t is tok_eof) ≡ false) (error : ParseError)
    (stmt : Parses) (m : ℕ) (inner : Covers m stmt) where
  pub parse_statements-HasRoom :
      (k i : ℕ) (s t : Parser) (type : NodeType)
      → HasRoom s i type t
      → length t.rest < m
      → length t.rest < k
      → Sat
          (λ u. HasRoom s i type u × (length u.rest ≤ length t.rest))
          (parse_statements ends error stmt k i t)
  unfolding parse_statements
  parse_statements-HasRoom zero i s t type r l h = absurd (omega arith)
  parse_statements-HasRoom (suc k) i s t type r l h = elim (Bool-cases (ends (peek t).type)) [
    | inl end ↦ rw (end, parse_statements) (r, omega arith)
    | inr more ↦
        let some_left : 0 < length t.rest =
          omega (arith, (advance-Past t (ends_last (peek t).type more)).1) in
        rw (more, parse_statements)
          (Sat-bind (Made t (length t.rest - 1))
            (λ u. HasRoom s i type u × (length u.rest ≤ length t.rest)) (stmt t) _
            (inner t (length t.rest - 1) l (omega arith))
            (λ e made.
              Sat-bind (λ u. HasRoom s i type u × (u.rest ≡ e.1.rest))
                (λ u. HasRoom s i type u × (length u.rest ≤ length t.rest))
                (add_child error i e.0 e.1) _
                (add_child-HasRoom error s i e.0 type e.1
                  (HasRoom-Grown s i type t e.1 r made.grown) made.index)
                (λ u held.
                  let less : length (drop_newlines u.rest) < length t.rest =
                    omega (arith, length-drop_newlines u.rest, ap length held.1, made.left) in
                  Sat-map
                    (λ v. HasRoom s i type v × (length v.rest ≤ length (drop_newlines u.rest)))
                    (λ v. HasRoom s i type v × (length v.rest ≤ length t.rest))
                    (parse_statements ends error stmt k i (skip_newlines u))
                    (parse_statements-HasRoom k i s (skip_newlines u) type
                      (HasRoom-same s i type u (skip_newlines u) held.0 refl) (omega arith)
                      (omega arith))
                    (λ v p. (p.0, omega (arith, p.1))))))
  ]

pub parse_parameters-HasRoom :
    (k i : ℕ) (s t : Parser) (type : NodeType)
    → HasRoom s i type t
    → length t.rest < k
    → Sat (λ u. HasRoom s i type u × (length u.rest ≤ length t.rest)) (parse_parameters k i t)
unfolding parse_parameters
parse_parameters-HasRoom zero i s t type r h = absurd (omega arith)
parse_parameters-HasRoom (suc k) i s t type r h =
    elim (Bool-cases (check t tok_rparen || check t tok_eof)) [
      | inl end ↦ rw (end, parse_parameters) (r, omega arith)
      | inr more ↦ elim (Bool-cases (check t tok_ident)) [
        | inr no_name ↦ rw (more, no_name, parse_parameters) tt
        | inl name ↦
            let (same, shorter) = check-advance-Past t tok_ident name refl in
            rw (more, name, parse_parameters)
              (Sat-bind (Made t (length (advance t).rest))
                (λ u. HasRoom s i type u × (length u.rest ≤ length t.rest)) _ _
                (advance-Made t tok_ident (length (advance t).rest) _ name refl (
                  add_node-Made _ (advance t) (length (advance t).rest) (leaf _ _ refl refl)
                    (omega arith)))
                (λ p made.
                  Sat-bind (λ u. HasRoom s i type u × (u.rest ≡ p.1.rest))
                    (λ u. HasRoom s i type u × (length u.rest ≤ length t.rest))
                    (add_child_unchecked i p.0 p.1) _
                    (add_child_unchecked-HasRoom s i p.0 type p.1
                      (HasRoom-Grown s i type t p.1 r made.grown) made.index)
                    (λ u held.
                      after_parameter k i s type t u held.0
                        (omega (arith, ap length held.1, made.left))
                        (λ v. parse_parameters-HasRoom k i s v type) (omega arith))))
      ]
    ]
  where
    after_parameter :
        (k i : ℕ) (s : Parser) (type : NodeType) (t u : Parser)
        → HasRoom s i type u
        → length u.rest < length t.rest
        → ((v : Parser)
            → HasRoom s i type v
            → length v.rest < k
            → Sat
                (λ w. HasRoom s i type w × (length w.rest ≤ length v.rest))
                (parse_parameters k i v))
        → length t.rest < suc k
        → Sat
            (λ w. HasRoom s i type w × (length w.rest ≤ length t.rest))
            (elim (check u tok_comma) [
              | true ↦ parse_parameters k i (advance u)
              | false ↦ parsed u
            ])
    after_parameter k i s type t u r l rec q = elim (Bool-cases (check u tok_comma)) [
      | inr last ↦ rw last (r, omega arith)
      | inl comma ↦
          let (same, shorter) = check-advance-Past u tok_comma comma refl in
          rw comma (
            Sat-map (λ w. HasRoom s i type w × (length w.rest ≤ length (advance u).rest))
              (λ w. HasRoom s i type w × (length w.rest ≤ length t.rest))
              (parse_parameters k i (advance u))
              (rec (advance u) (HasRoom-same s i type u (advance u) r same) (omega arith))
              (λ w h. (h.0, omega (arith, h.1))))
    ]
