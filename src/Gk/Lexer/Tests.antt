-- ===== src/Gk/Lexer/Tests.antt =====
-- The lexer of kernel/gk/gk_lexer.c on a block of two lines.
use gecko_os_mac_compatabili.Common.{ℕ, ◌≡◌, refl, List, [], ◌∷◌, map}
use gecko_os_mac_compatabili.Gk.Token.{
  TokenType, Token, Lexed, lexed, tok_while, tok_ident, tok_colon, tok_newline, tok_indent,
  tok_dedent, tok_int, tok_eof, tok_assign, tok_le, emit_token, emit_unchecked,
}
use gecko_os_mac_compatabili.Gk.Lexer.{
  gk_lex, lex_source, lex_next, lex_full_line, lex_line, lex_token, lex_operator, find_operator,
  set_indent, close_deeper, close_all, count_leading, read_int, read_word, read_string, skip_line,
  find_keyword, same_text,
}
use gecko_os_mac_compatabili.Gk.Lexer.Emit.{Sat}
use gecko_os_mac_compatabili.Gk.Lexer.Indent.{Closed, gk_lex-Closed}

-- "while a<=9:", then "  a=12" with no newline at the end.
abbrev source : List ℕ
source =
    b'w' ∷ b'h' ∷ b'i' ∷ b'l' ∷ b'e' ∷ b' ' ∷ b'a' ∷ b'<' ∷ b'=' ∷ b'9' ∷ b':' ∷ b'\n' ∷ b' ' ∷ b' '
    ∷ b'a' ∷ b'=' ∷ b'1' ∷ b'2' ∷ []

abbrev types : Lexed (List Token) → List TokenType
types (lexed ts) = map (λ (t : Token). t.type) ts
types _ = []

source-types :
    types (gk_lex source)
    ≡ tok_while ∷ tok_ident ∷ tok_le ∷ tok_int ∷ tok_colon ∷ tok_newline ∷ tok_indent ∷ tok_ident
      ∷ tok_assign ∷ tok_int ∷ tok_newline ∷ tok_dedent ∷ tok_eof ∷ []
unfolding gk_lex lex_source lex_next lex_full_line lex_line lex_token lex_operator find_operator
    set_indent close_deeper close_all count_leading read_int read_word read_string skip_line
    find_keyword same_text emit_token emit_unchecked
source-types = refl

gk_lex-Closed_example : Sat Closed (gk_lex source)
gk_lex-Closed_example = gk_lex-Closed source
