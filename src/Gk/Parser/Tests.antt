-- ===== src/Gk/Parser/Tests.antt =====
-- The parser of kernel/gk/gk_parser.c on an assignment.
use gecko_os_mac_compatabili.Common.{ℕ, List, [], ◌∷◌}
use gecko_os_mac_compatabili.Gk.Token.{
  TokenType, Token, tok_ident, tok_assign, tok_int, tok_plus, tok_star, tok_newline, tok_eof,
}
use gecko_os_mac_compatabili.Gk.Ast.Tokens.{Sat}
use gecko_os_mac_compatabili.Gk.Parser.{gk_parse}
use gecko_os_mac_compatabili.Gk.Parser.Nodes.{IsTree, gk_parse-IsTree}

abbrev token : TokenType → ℕ → List ℕ → Token
token t v cs = record { type = t; int_val = v; str_val = cs; line = 1 }

-- "x = 1 + 2 * 3"
abbrev tokens : List Token
tokens =
    token tok_ident 0 (b'x' ∷ [])
    ∷ token tok_assign 0 []
    ∷ token tok_int 1 []
    ∷ token tok_plus 0 []
    ∷ token tok_int 2 []
    ∷ token tok_star 0 []
    ∷ token tok_int 3 []
    ∷ token tok_newline 0 []
    ∷ token tok_eof 0 []
    ∷ []

gk_parse-IsTree_example : Sat IsTree (gk_parse tokens)
gk_parse-IsTree_example = gk_parse-IsTree tokens
