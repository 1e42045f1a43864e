-- ===== src/Gk/Lexer.antt =====
-- kernel/gk/gk_lexer.c: from characters to tokens, with the indentation as tokens.
-- A source is the list of its bytes, with no NUL; a position is the list from there on.
pub mod Emit
pub mod Read
pub mod Indent
mod Tests
use mathlib.Core.Option
use gecko_os_mac_compatabili.Common.{
  ℕ, zero, suc, ◌+◌, ◌-◌, ◌*◌, ◌%◌, ◌^◌, ◌≤◌, ◌<◌, ◌≡◌, ◌≢◌, inl, inr, refl, ap, ◌∙◌, sym, subst,
  Bool, true, false, not, List, [], ◌∷◌, ◌++◌, ltb, leb, ◌==◌, ◌&&◌, ◌||◌, if◌then◌else◌, arith,
  length, Option, some, none, get_or, drop, Bool-cases, Option-cases, length-append,
}
use gecko_os_mac_compatabili.Gk.Token.{
  TokenType, tok_and, tok_assign, tok_break, tok_colon, tok_comma, tok_continue, tok_dedent,
  tok_def, tok_elif, tok_else, tok_eof, tok_eq, tok_false, tok_for, tok_ge, tok_gt, tok_ident,
  tok_if, tok_in, tok_indent, tok_int, tok_le, tok_lparen, tok_lt, tok_minus, tok_neq, tok_newline,
  tok_not, tok_or, tok_percent, tok_plus, tok_return, tok_rparen, tok_slash, tok_star, tok_str,
  tok_true, tok_while, Token, Lexer, Message, too_many_tokens, unknown, Lexed, lexed, failed,
  stack_overflow, out_of_fuel, ◌>>=◌, max_tokens, max_str, max_word, max_indent, append_token,
  emit_token, emit, emit_unchecked,
}

abbrev pub is_digit : ℕ → Bool
is_digit c = leb b'0' c && leb c b'9'

abbrev pub is_alpha : ℕ → Bool
is_alpha c = leb b'a' c && leb c b'z' || leb b'A' c && leb c b'Z' || c == b'_'

abbrev pub is_alnum : ℕ → Bool
is_alnum c = is_alpha c || is_digit c

abbrev pub is_space : ℕ → Bool
is_space c = c == b' ' || c == b'\t'

-- `gk_streq`
unfoldable pub same_text : List ℕ → List ℕ → Bool
same_text [] [] = true
same_text [] (d ∷ ds) = false
same_text (c ∷ cs) [] = false
same_text (c ∷ cs) (d ∷ ds) = c == d && same_text cs ds

-- KEYWORDS
abbrev pub keywords : List (List ℕ × TokenType)
keywords =
    (b'i' ∷ b'f' ∷ [], tok_if)
    ∷ (b'e' ∷ b'l' ∷ b'i' ∷ b'f' ∷ [], tok_elif)
    ∷ (b'e' ∷ b'l' ∷ b's' ∷ b'e' ∷ [], tok_else)
    ∷ (b'w' ∷ b'h' ∷ b'i' ∷ b'l' ∷ b'e' ∷ [], tok_while)
    ∷ (b'f' ∷ b'o' ∷ b'r' ∷ [], tok_for)
    ∷ (b'i' ∷ b'n' ∷ [], tok_in)
    ∷ (b'd' ∷ b'e' ∷ b'f' ∷ [], tok_def)
    ∷ (b'r' ∷ b'e' ∷ b't' ∷ b'u' ∷ b'r' ∷ b'n' ∷ [], tok_return)
    ∷ (b'b' ∷ b'r' ∷ b'e' ∷ b'a' ∷ b'k' ∷ [], tok_break)
    ∷ (b'c' ∷ b'o' ∷ b'n' ∷ b't' ∷ b'i' ∷ b'n' ∷ b'u' ∷ b'e' ∷ [], tok_continue)
    ∷ (b'a' ∷ b'n' ∷ b'd' ∷ [], tok_and)
    ∷ (b'o' ∷ b'r' ∷ [], tok_or)
    ∷ (b'n' ∷ b'o' ∷ b't' ∷ [], tok_not)
    ∷ (b'T' ∷ b'r' ∷ b'u' ∷ b'e' ∷ [], tok_true)
    ∷ (b'F' ∷ b'a' ∷ b'l' ∷ b's' ∷ b'e' ∷ [], tok_false)
    ∷ []

pub find_keyword : List ℕ → List (List ℕ × TokenType) → TokenType
unfolding same_text
find_keyword word [] = tok_ident
find_keyword word ((k, t) ∷ table) = if same_text word k then t else find_keyword word table

-- The number that the digits add to, and the rest. An `int` is its bit pattern.
pub read_int : ℕ → List ℕ → ℕ × List ℕ
read_int v [] = (v, [])
read_int v (c ∷ cs) =
    let more = read_int ((v * 10 + (c - b'0')) % 2 ^ 32) cs in
    if is_digit c then more else (v, c ∷ cs)

-- At most `n` characters of a name.
pub read_word : ℕ → List ℕ → List ℕ × List ℕ
read_word zero cs = ([], cs)
read_word (suc n) [] = ([], [])
read_word (suc n) (c ∷ cs) =
    let (word, rest) = read_word n cs in if is_alnum c then (c ∷ word, rest) else ([], c ∷ cs)

abbrev pub escape : ℕ → ℕ
escape c = if c == b'n' then b'\n' else if c == b't' then b'\t' else c

-- The characters of a string up to the quote or until `n` of them are read, and the rest from there.
pub read_string : ℕ → ℕ → List ℕ → List ℕ × List ℕ
read_string quote zero cs = ([], cs)
read_string quote (suc n) [] = ([], [])
read_string quote (suc n) (c ∷ []) = if c == quote then ([], c ∷ []) else (c ∷ [], [])
read_string quote (suc n) (c ∷ d ∷ cs) =
    let (escaped, after) = read_string quote n cs in
    let (text, rest) = read_string quote n (d ∷ cs) in
    if c == quote
    then ([], c ∷ d ∷ cs)
    else if c == b'\\'
    then (escape d ∷ escaped, after)
    else (c ∷ text, rest)

-- `while (i < src_len && src[i] != '\n') i++`
pub skip_line : List ℕ → List ℕ
skip_line [] = []
skip_line (c ∷ cs) = let rest = skip_line cs in if c == b'\n' then c ∷ cs else rest

-- The operators of two characters, all of which end in `=`.
abbrev pub double_operators : List (ℕ × TokenType)
double_operators = (b'=', tok_eq) ∷ (b'!', tok_neq) ∷ (b'<', tok_le) ∷ (b'>', tok_ge) ∷ []

abbrev pub single_operators : List (ℕ × TokenType)
single_operators =
    (b'+', tok_plus)
    ∷ (b'-', tok_minus)
    ∷ (b'*', tok_star)
    ∷ (b'/', tok_slash)
    ∷ (b'%', tok_percent)
    ∷ (b'<', tok_lt)
    ∷ (b'>', tok_gt)
    ∷ (b'=', tok_assign)
    ∷ (b'(', tok_lparen)
    ∷ (b')', tok_rparen)
    ∷ (b',', tok_comma)
    ∷ (b':', tok_colon)
    ∷ []

pub find_operator : ℕ → List (ℕ × TokenType) → Option TokenType
find_operator c [] = none
find_operator c ((d, t) ∷ table) = if c == d then some t else find_operator c table

-- The operator that starts with `c`, before `cs`: `next` is `=`, or it is one character.
pub lex_operator : Lexer → ℕ → List ℕ → Lexed (Lexer × List ℕ)
unfolding find_operator emit_unchecked
lex_operator s c cs =
    let double = if get_or cs 0 0 == b'=' then find_operator c double_operators else none in
    elim double [
      | some t ↦ lexed (emit_unchecked s t, drop 1 cs)
      | none ↦ elim (find_operator c single_operators) [
        | some t ↦ lexed (emit_unchecked s t, cs)
        | none ↦ failed unknown
      ]
    ]

-- One round of the loop over a line, at the character `c`.
pub lex_token : Lexer → ℕ → List ℕ → Lexed (Lexer × List ℕ)
lex_token s c cs =
    let (v, after_int) = read_int 0 (c ∷ cs) in
    let (text, after_string) = read_string c (max_str - 1) cs in
    let (word, after_word) = read_word max_word (c ∷ cs) in
    if is_space c
    then lexed (s, cs)
    else if c == b'#'
    then lexed (s, skip_line cs)
    else if is_digit c
    then (emit_token s tok_int v [] >>= λ t. lexed (t, after_int))
    else if c == b'"' || c == b'\''
    then (emit_token s tok_str 0 text >>= λ t. lexed (t, drop 1 after_string))
    else if is_alpha c
    then (emit_token s (find_keyword word keywords) 0 word >>= λ t. lexed (t, after_word))
    else lex_operator s c cs

-- The loop over a line, with a bound on its rounds.
pub lex_line : ℕ → Lexer → List ℕ → Lexed (Lexer × List ℕ)
lex_line zero s cs = out_of_fuel
lex_line (suc f) s [] = lexed (s, [])
lex_line (suc f) s (c ∷ cs) = elim (c == b'\n') [
  | true ↦ lexed (s, c ∷ cs)
  | false ↦ lex_token s c cs >>= λ r. lex_line f r.0 r.1
]

-- How many characters at the start are `d`, and the rest.
pub count_leading : ℕ → List ℕ → ℕ × List ℕ
count_leading d [] = (0, [])
count_leading d (c ∷ cs) =
    let (n, rest) = count_leading d cs in if c == d then (suc n, rest) else (0, c ∷ cs)

-- `while (indent < indent_stack[indent_top])`
pub close_deeper : ℕ → Lexer → List ℕ → Lexed Lexer
unfolding emit_token
close_deeper indent s [] = lexed (record s { indents = [] })
close_deeper indent s (top ∷ below) = elim (ltb indent top) [
  | true ↦ emit s tok_dedent >>= λ t. close_deeper indent t below
  | false ↦ lexed (record s { indents = top ∷ below })
]

abbrev pub top_indent : List ℕ → ℕ
top_indent [] = 0
top_indent (top ∷ below) = top

pub set_indent : ℕ → Lexer → Lexed Lexer
unfolding close_deeper emit_token
set_indent indent s =
    if ltb (top_indent s.indents) indent
    then (if leb max_indent (length s.indents + 1)
        then stack_overflow
        else emit (record s { indents = indent ∷ s.indents }) tok_indent)
    else close_deeper indent s s.indents

-- `if (i < src_len) { i++; line++; }`
abbrev pub end_line : Lexer → List ℕ → Lexer × List ℕ
end_line s [] = (s, [])
end_line s (c ∷ cs) = (record s { line = s.line + 1 }, cs)

-- Nothing but a comment is left of the line.
abbrev pub is_blank : List ℕ → Bool
is_blank [] = true
is_blank (c ∷ cs) = c == b'\n' || c == b'#'

-- A line with something on it, whose indentation is `indent`.
pub lex_full_line : ℕ → Lexer → List ℕ → Lexed (Lexer × List ℕ)
unfolding set_indent lex_line
lex_full_line indent s cs = set_indent indent s >>= λ t.
    lex_line (length cs + 1) t cs >>= λ r. emit r.0 tok_newline >>= λ u. lexed (end_line u r.1)

-- One round of the loop over the source.
pub lex_next : Lexer → List ℕ → Lexed (Lexer × List ℕ)
unfolding count_leading lex_full_line
lex_next s cs =
    let (spaces, after_spaces) = count_leading b' ' cs in
    let (tabs, code) = count_leading b'\t' after_spaces in
    if is_blank code
    then lexed (end_line s (skip_line code))
    else lex_full_line (spaces + tabs * 4) s code

-- The loop over the source, with a bound on its rounds.
pub lex_source : ℕ → Lexer → List ℕ → Lexed Lexer
lex_source zero s cs = out_of_fuel
lex_source (suc f) s [] = lexed s
lex_source (suc f) s (c ∷ cs) = lex_next s (c ∷ cs) >>= λ r. lex_source f r.0 r.1

-- `while (indent_top > 0)`
pub close_all : Lexer → List ℕ → Lexed Lexer
unfolding emit_token
close_all s [] = lexed (record s { indents = [] })
close_all s (top ∷ below) = emit s tok_dedent >>= λ t. close_all t below

-- The tokens, for a return of true.
pub gk_lex : List ℕ → Lexed (List Token)
unfolding lex_source close_all emit_token
gk_lex src =
    lex_source (length src + 1) (record { tokens = []; line = 1; indents = [] }) src >>= λ s.
    close_all s s.indents >>= λ t. emit t tok_eof >>= λ u. lexed u.tokens
