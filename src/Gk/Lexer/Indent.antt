-- ===== src/Gk/Lexer/Indent.antt =====
-- The lexer ends, its tokens fit, and each TOK_INDENT has its TOK_DEDENT.
use gecko_os_mac_compatabili.Common.{
  ℕ, zero, suc, ◌+◌, ◌-◌, ◌*◌, ◌%◌, ◌^◌, ◌≤◌, ◌<◌, ◌≡◌, inl, inr, refl, ap, true, List, [], ◌∷◌,
  ltb, leb, ◌==◌, ◌||◌, if◌then◌else◌, arith, length, Option, some, none, get_or, drop, Bool-cases,
}
use gecko_os_mac_compatabili.Gk.Token.{
  TokenType, tok_dedent, tok_eof, tok_indent, tok_int, tok_newline, tok_str, Token, Lexer, unknown,
  Lexed, lexed, failed, stack_overflow, out_of_fuel, ◌>>=◌, max_tokens, max_str, max_word,
  max_indent, emit_token, emit, emit_unchecked,
}
use gecko_os_mac_compatabili.Gk.Lexer.{
  keywords, read_int, read_word, read_string, skip_line, double_operators, single_operators,
  find_operator, lex_operator, lex_token, lex_line, count_leading, close_deeper, top_indent,
  set_indent, end_line, is_blank, lex_full_line, lex_next, lex_source, close_all, gk_lex, is_digit,
  is_alpha, is_alnum, is_space,
}
use gecko_os_mac_compatabili.Gk.Lexer.Emit.{
  Sat, Sat-bind, opens, closes, Emitted, emit_token-Emitted, IsBalanced, Plain, Emitted-IsBalanced,
  emit_unchecked-IsBalanced,
}
use gecko_os_mac_compatabili.Gk.Lexer.Read.{
  find_keyword-Plain, PlainIfAny, find_operator-Plain, read_int-le, read_word-shorter,
  read_string-le, skip_line-le, count_leading-le, drop-le,
}

-- A balanced state, with at most `n` characters left.
abbrev Left : ℕ → Lexer × List ℕ → Type 0
Left n (s, cs) = IsBalanced s × (length cs ≤ n)

emit-Left :
    (n : ℕ) (s : Lexer) (t : TokenType) (v : ℕ) (text rest : List ℕ)
    → IsBalanced s
    → Plain t
    → length rest ≤ n
    → Sat (Left n) (emit_token s t v text >>= λ u. lexed (u, rest))
emit-Left n s t v text rest b p l =
    Sat-bind (Emitted s t) (Left n) (emit_token s t v text) _ (emit_token-Emitted s t v text)
      (λ u e. (Emitted-IsBalanced s u t b p e, l))

lex_operator-Left :
    (s : Lexer) (c : ℕ) (cs : List ℕ) → IsBalanced s → Sat (Left (length cs)) (lex_operator s c cs)
unfolding lex_operator
lex_operator-Left s c cs b =
    go (if get_or cs 0 0 == b'=' then find_operator c double_operators else none)
      (find_operator c single_operators) double
      (find_operator-Plain c single_operators (omega arith))
  where
    double : PlainIfAny (if get_or cs 0 0 == b'=' then find_operator c double_operators else none)
    double = elim (Bool-cases (get_or cs 0 0 == b'=')) [
      | inl two ↦ rw two (find_operator-Plain c double_operators (omega arith))
      | inr one ↦ rw one tt
    ]

    go :
        (o p : Option TokenType)
        → PlainIfAny o
        → PlainIfAny p
        → Sat (Left (length cs)) (elim o [
          | some t ↦ lexed (emit_unchecked s t, drop 1 cs)
          | none ↦ elim p [ some t ↦ lexed (emit_unchecked s t, cs) | none ↦ failed unknown ]
        ])
    go (some t) p x y = (emit_unchecked-IsBalanced s t b x, drop-le cs)
    go none (some t) x y = (emit_unchecked-IsBalanced s t b y, omega arith)
    go none none x y = tt

lex_token-Left :
    (s : Lexer) (c : ℕ) (cs : List ℕ) → IsBalanced s → Sat (Left (length cs)) (lex_token s c cs)
unfolding lex_token
lex_token-Left s c cs b = elim (Bool-cases (is_space c)) [
  | inl space ↦ rw space (b, omega arith)
  | inr solid ↦ elim (Bool-cases (c == b'#')) [
    | inl comment ↦ rw (solid, comment) (b, skip_line-le cs)
    | inr code ↦ elim (Bool-cases (is_digit c)) [
      | inl digit ↦
          rw (solid, code, digit)
            (emit-Left (length cs) s tok_int _ [] _ b (refl, refl) (digits digit))
      | inr no_digit ↦ elim (Bool-cases (c == b'"' || c == b'\'')) [
        | inl quote ↦
            rw (solid, code, no_digit, quote)
              (emit-Left (length cs) s tok_str 0 _ _ b (refl, refl) string)
        | inr no_quote ↦ elim (Bool-cases (is_alpha c)) [
          | inl alpha ↦
              rw (solid, code, no_digit, no_quote, alpha)
                (emit-Left (length cs) s _ 0 _ _ b
                  (find_keyword-Plain (read_word max_word (c ∷ cs)).0 keywords (omega arith))
                  (word alpha))
          | inr other ↦ rw (solid, code, no_digit, no_quote, other) (lex_operator-Left s c cs b)
        ]
      ]
    ]
  ]
]
  where
    digits : is_digit c ≡ true → length (read_int 0 (c ∷ cs)).1 ≤ length cs
    digits e = unfold read_int in rw e (read_int-le ((0 * 10 + (c - b'0')) % 2 ^ 32) cs)

    word : is_alpha c ≡ true → length (read_word max_word (c ∷ cs)).1 ≤ length cs
    word e = let alnum : is_alnum c ≡ true = rw e refl in read_word-shorter 62 c cs alnum

    string : length (drop 1 (read_string c (max_str - 1) cs).1) ≤ length cs
    string =
        omega (arith, drop-le (read_string c (max_str - 1) cs).1, read_string-le c (max_str - 1) cs)

lex_line-Left :
    (f n : ℕ) (s : Lexer) (cs : List ℕ)
    → IsBalanced s
    → length cs < f
    → length cs ≤ n
    → Sat (Left n) (lex_line f s cs)
unfolding lex_line
lex_line-Left zero n s cs b l m = absurd (omega arith)
lex_line-Left (suc f) n s [] b l m = (b, m)
lex_line-Left (suc f) n s (c ∷ cs) b l m = elim (Bool-cases (c == b'\n')) [
  | inl end ↦ rw (end, lex_line) (b, m)
  | inr more ↦
      rw (more, lex_line)
        (Sat-bind (Left (length cs)) (Left n) (lex_token s c cs) _ (lex_token-Left s c cs b)
          (λ r h. lex_line-Left f n r.0 r.1 h.0 (omega (arith, h.1)) (omega (arith, h.1))))
]

emit_close-IsBalanced :
    (s : Lexer) (top : ℕ) (below : List ℕ)
    → IsBalanced (record s { indents = top ∷ below })
    → Sat (λ u. IsBalanced (record u { indents = below })) (emit s tok_dedent)
emit_close-IsBalanced s top below b =
    Sat-weaken (emit s tok_dedent) (emit_token-Emitted s tok_dedent 0 [])
  where
    Sat-weaken :
        (r : Lexed Lexer)
        → Sat (Emitted s tok_dedent) r
        → Sat (λ u. IsBalanced (record u { indents = below })) r
    Sat-weaken (lexed u) e = record {
      balanced = omega (arith, b.balanced, e.opened, e.closed);
      fits = e.fits;
    }
    Sat-weaken (failed m) e = tt
    Sat-weaken stack_overflow e = tt
    Sat-weaken out_of_fuel e = e

close_deeper-IsBalanced :
    (indent : ℕ) (s : Lexer) (stack : List ℕ)
    → IsBalanced (record s { indents = stack })
    → Sat IsBalanced (close_deeper indent s stack)
unfolding close_deeper
close_deeper-IsBalanced indent s [] b = b
close_deeper-IsBalanced indent s (top ∷ below) b = elim (Bool-cases (ltb indent top)) [
  | inr enough ↦ rw (enough, close_deeper) b
  | inl deeper ↦
      rw (deeper, close_deeper)
        (Sat-bind (λ u. IsBalanced (record u { indents = below })) IsBalanced (emit s tok_dedent) _
          (emit_close-IsBalanced s top below b) (λ u h. close_deeper-IsBalanced indent u below h))
]

close_all-IsBalanced :
    (s : Lexer) (stack : List ℕ)
    → IsBalanced (record s { indents = stack })
    → Sat (λ u. IsBalanced (record u { indents = [] })) (close_all s stack)
unfolding close_all
close_all-IsBalanced s [] b = b
close_all-IsBalanced s (top ∷ below) b =
    Sat-bind (λ u. IsBalanced (record u { indents = below }))
      (λ u. IsBalanced (record u { indents = [] })) (emit s tok_dedent) _
      (emit_close-IsBalanced s top below b) (λ u h. close_all-IsBalanced u below h)

set_indent-IsBalanced :
    (indent : ℕ) (s : Lexer) → IsBalanced s → Sat IsBalanced (set_indent indent s)
unfolding set_indent
set_indent-IsBalanced indent s b = elim (Bool-cases (ltb (top_indent s.indents) indent)) [
  | inr same ↦ rw same (close_deeper-IsBalanced indent s s.indents b)
  | inl deeper ↦ elim (Bool-cases (leb max_indent (length s.indents + 1))) [
    | inl many ↦ rw (deeper, many) tt
    | inr few ↦
        rw (deeper, few)
          (opened (emit (record s { indents = indent ∷ s.indents }) tok_indent)
            (emit_token-Emitted (record s { indents = indent ∷ s.indents }) tok_indent 0 []))
  ]
]
  where
    opened :
        (r : Lexed Lexer)
        → Sat (Emitted (record s { indents = indent ∷ s.indents }) tok_indent) r
        → Sat IsBalanced r
    opened (lexed u) e = record {
      balanced =
          omega (arith, b.balanced, e.opened, e.closed, ap length {x = u.indents} e.same_indents);
      fits = e.fits;
    }
    opened (failed m) e = tt
    opened stack_overflow e = tt
    opened out_of_fuel e = e

end_line-Left :
    (n : ℕ) (s : Lexer) (cs : List ℕ) → IsBalanced s → length cs ≤ suc n → Left n (end_line s cs)
end_line-Left n s [] b l = (b, omega arith)
end_line-Left n s (c ∷ cs) b l = (record { balanced = b.balanced; fits = b.fits }, omega arith)

lex_full_line-Left :
    (indent n : ℕ) (s : Lexer) (cs : List ℕ)
    → IsBalanced s
    → length cs ≤ suc n
    → Sat (Left n) (lex_full_line indent s cs)
unfolding lex_full_line
lex_full_line-Left indent n s cs b l =
    Sat-bind IsBalanced (Left n) (set_indent indent s) _ (set_indent-IsBalanced indent s b) (λ t bt.
      Sat-bind (Left (suc n)) (Left n) (lex_line (length cs + 1) t cs) _
        (lex_line-Left (length cs + 1) (suc n) t cs bt (omega arith) l)
        (λ r h.
          Sat-bind (Emitted r.0 tok_newline) (Left n) (emit r.0 tok_newline) _
            (emit_token-Emitted r.0 tok_newline 0 [])
            (λ u e.
              end_line-Left n u r.1 (Emitted-IsBalanced r.0 u tok_newline h.0 (refl, refl) e) h.1)))

lex_next-Left :
    (s : Lexer) (c : ℕ) (cs : List ℕ) → IsBalanced s → Sat (Left (length cs)) (lex_next s (c ∷ cs))
unfolding lex_next
lex_next-Left s c cs b = elim (Bool-cases (is_blank code)) [
  | inl blank ↦
      rw blank
        (end_line-Left (length cs) s (skip_line code) b (omega (arith, size, skip_line-le code)))
  | inr full ↦ rw full (lex_full_line-Left _ (length cs) s code b size)
]
  where
    code : List ℕ
    code = (count_leading b'\t' (count_leading b' ' (c ∷ cs)).1).1

    size : length code ≤ suc (length cs)
    size = omega (
      arith,
      count_leading-le b' ' (c ∷ cs),
      count_leading-le b'\t' (count_leading b' ' (c ∷ cs)).1,
    )

lex_source-IsBalanced :
    (f : ℕ) (s : Lexer) (cs : List ℕ)
    → IsBalanced s
    → length cs < f
    → Sat IsBalanced (lex_source f s cs)
unfolding lex_source
lex_source-IsBalanced zero s cs b l = absurd (omega arith)
lex_source-IsBalanced (suc f) s [] b l = b
lex_source-IsBalanced (suc f) s (c ∷ cs) b l =
    Sat-bind (Left (length cs)) IsBalanced (lex_next s (c ∷ cs)) _ (lex_next-Left s c cs b)
      (λ r h. lex_source-IsBalanced f r.0 r.1 h.0 (omega (arith, h.1)))

-- Every TOK_INDENT has its TOK_DEDENT, and the tokens fit the array.
abbrev pub Closed : List Token → Type 0
Closed tokens = (opens tokens ≡ closes tokens) × (length tokens ≤ max_tokens)

-- On every source `gk_lex` ends within its rounds: it returns false, or writes behind
-- `indent_stack`, or returns true with at most 2048 tokens, among which there are as many
-- TOK_DEDENT as TOK_INDENT.
pub gk_lex-Closed : (src : List ℕ) → Sat Closed (gk_lex src)
unfolding gk_lex opens closes
gk_lex-Closed src =
    Sat-bind IsBalanced Closed (lex_source (length src + 1) _ src) _
      (lex_source-IsBalanced (length src + 1) _ src (record { balanced = refl; fits = omega arith })
        (omega arith))
      (λ s b.
        Sat-bind (λ u. IsBalanced (record u { indents = [] })) Closed (close_all s s.indents) _
          (close_all-IsBalanced s s.indents b)
          (λ t bt.
            Sat-bind (Emitted t tok_eof) Closed (emit t tok_eof) _
              (emit_token-Emitted t tok_eof 0 [])
              (λ u e. (omega (arith, bt.balanced, e.opened, e.closed), e.fits))))
