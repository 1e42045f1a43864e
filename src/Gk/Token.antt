-- ===== src/Gk/Token.antt =====
-- kernel/gk/gk_lexer.c and include/gk/gk.h: tokens, the state of the lexer, and `emit`.
use gecko_os_mac_compatabili.Common.{ℕ, List, [], ◌∷◌, ◌++◌, leb, if◌then◌else◌, length}

abbrev pub max_tokens : ℕ
max_tokens = 2048

-- GK_MAX_STR, and the size of the buffer for a name.
abbrev pub max_str : ℕ
max_str = 256

abbrev pub max_word : ℕ
max_word = 63

abbrev pub max_indent : ℕ
max_indent = 64

pub data TokenType : Type 0 where
  tok_int tok_str tok_ident : TokenType
  tok_plus tok_minus tok_star tok_slash tok_percent : TokenType
  tok_eq tok_neq tok_lt tok_le tok_gt tok_ge : TokenType
  tok_and tok_or tok_not tok_assign : TokenType
  tok_lparen tok_rparen tok_comma tok_colon : TokenType
  tok_if tok_elif tok_else tok_while tok_for tok_in : TokenType
  tok_def tok_return tok_break tok_continue tok_true tok_false : TokenType
  tok_newline tok_indent tok_dedent tok_eof : TokenType

pub record Token : Type 0 where
  pub type : TokenType
  pub int_val : ℕ
  pub str_val : List ℕ
  pub line : ℕ

-- The tokens so far, the line, and `indent_stack` from its top down to, but not with, entry 0.
pub record Lexer : Type 0 where
  pub tokens : List Token
  pub line : ℕ
  pub indents : List ℕ

-- What is left in `error` by a return of false.
pub data Message : Type 0 where
  too_many_tokens unknown : Message

-- `stack_overflow` is a write behind `indent_stack`.
pub data Lexed {ℓ} (A : Type ℓ) : Type ℓ where
  lexed : A → Lexed A
  failed : Message → Lexed A
  stack_overflow : Lexed A
  out_of_fuel : Lexed A

infixl 5 ◌>>=◌
abbrev pub ◌>>=◌ {ℓ κ} : {A : Type ℓ} {B : Type κ} → Lexed A → (A → Lexed B) → Lexed B
lexed a >>= f = f a
failed m >>= f = failed m
stack_overflow >>= f = stack_overflow
out_of_fuel >>= f = out_of_fuel

abbrev pub append_token : Lexer → Token → Lexer
append_token s t = record s { tokens = s.tokens ++ (t ∷ []) }

-- `emit`, `emit_int` and `emit_str`, with the fields that the token gets.
unfoldable pub emit_token : Lexer → TokenType → ℕ → List ℕ → Lexed Lexer
emit_token s t v text =
    if leb max_tokens (length s.tokens)
    then failed too_many_tokens
    else lexed (append_token s (record { type = t; int_val = v; str_val = text; line = s.line }))

abbrev pub emit : Lexer → TokenType → Lexed Lexer
emit s t = emit_token s t 0 []

-- `emit` where its result is not looked at. (The message that it leaves is the one of the next
-- `emit`, which fails as well.)
unfoldable pub emit_unchecked : Lexer → TokenType → Lexer
emit_unchecked s t =
    if leb max_tokens (length s.tokens)
    then s
    else append_token s (record { type = t; int_val = 0; str_val = []; line = s.line })
