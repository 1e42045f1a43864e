-- ===== src/Gk/Lexer/Emit.antt =====
-- What one token does to the state of the lexer.
use gecko_os_mac_compatabili.Common.{
  ℕ, ◌+◌, ◌≤◌, ◌≡◌, inl, inr, refl, ap, false, List, [], ◌∷◌, ◌++◌, leb, arith, length, Bool-cases,
  length-append,
}
use gecko_os_mac_compatabili.Gk.Token.{
  TokenType, tok_dedent, tok_indent, Token, Lexer, Lexed, lexed, failed, stack_overflow,
  out_of_fuel, ◌>>=◌, max_tokens, append_token, emit_token, emit_unchecked,
}

-- A result that is not a run out of rounds, with a property of what is returned.
abbrev pub Sat : {A : Type 0} → (A → Type 0) → Lexed A → Type 0
Sat P (lexed a) = P a
Sat P (failed m) = Unit {0}
Sat P stack_overflow = Unit {0}
Sat P out_of_fuel = ⊥

pub Sat-bind :
    {A B : Type 0} (P : A → Type 0) (Q : B → Type 0) (r : Lexed A) (k : A → Lexed B)
    → Sat P r
    → ((a : A) → P a → Sat Q (k a))
    → Sat Q (r >>= k)
Sat-bind P Q (lexed a) k h f = f a h
Sat-bind P Q (failed m) k h f = tt
Sat-bind P Q stack_overflow k h f = tt
Sat-bind P Q out_of_fuel k h f = h

abbrev pub opening : TokenType → ℕ
opening t = elim t [ tok_indent ↦ 1 | _ ↦ 0 ]

abbrev pub closing : TokenType → ℕ
closing t = elim t [ tok_dedent ↦ 1 | _ ↦ 0 ]

-- The numbers of TOK_INDENT and of TOK_DEDENT.
unfoldable pub opens : List Token → ℕ
opens [] = 0
opens (t ∷ ts) = opening t.type + opens ts

unfoldable pub closes : List Token → ℕ
closes [] = 0
closes (t ∷ ts) = closing t.type + closes ts

opens-snoc : (ts : List Token) (t : Token) → opens (ts ++ (t ∷ [])) ≡ opens ts + opening t.type
unfolding opens
opens-snoc [] t = omega arith
opens-snoc (x ∷ ts) t = omega (arith, opens-snoc ts t)

closes-snoc : (ts : List Token) (t : Token) → closes (ts ++ (t ∷ [])) ≡ closes ts + closing t.type
unfolding closes
closes-snoc [] t = omega arith
closes-snoc (x ∷ ts) t = omega (arith, closes-snoc ts t)

-- The state after one token.
pub record Emitted (s : Lexer) (t : TokenType) (u : Lexer) : Type 0 where
  pub same_indents : u.indents ≡ s.indents
  pub opened : opens u.tokens ≡ opens s.tokens + opening t
  pub closed : closes u.tokens ≡ closes s.tokens + closing t
  pub fits : length u.tokens ≤ max_tokens

append-Emitted :
    (s : Lexer) (t : Token)
    → leb max_tokens (length s.tokens) ≡ false
    → Emitted s t.type (append_token s t)
append-Emitted s t room = record {
  same_indents = refl;
  opened = opens-snoc s.tokens t;
  closed = closes-snoc s.tokens t;
  fits = ground (arith, room, length-append s.tokens (t ∷ []));
}

pub emit_token-Emitted :
    (s : Lexer) (t : TokenType) (v : ℕ) (text : List ℕ) → Sat (Emitted s t) (emit_token s t v text)
unfolding emit_token
emit_token-Emitted s t v text = elim (Bool-cases (leb max_tokens (length s.tokens))) [
  | inl full ↦ rw full tt
  | inr room ↦
      rw room
        (append-Emitted s (record { type = t; int_val = v; str_val = text; line = s.line }) room)
]

-- What holds between two tokens: an open block for each entry of the stack.
pub record IsBalanced (s : Lexer) : Type 0 where
  pub balanced : opens s.tokens ≡ closes s.tokens + length s.indents
  pub fits : length s.tokens ≤ max_tokens

-- A token that neither opens nor closes a block.
abbrev pub Plain : TokenType → Type 0
Plain t = (opening t ≡ 0) × (closing t ≡ 0)

pub Emitted-IsBalanced :
    (s u : Lexer) (t : TokenType) → IsBalanced s → Plain t → Emitted s t u → IsBalanced u
Emitted-IsBalanced s u t b p e = record {
  balanced =
      omega
        (arith, b.balanced, p.0, p.1, e.opened, e.closed, ap length {x = u.indents} e.same_indents);
  fits = e.fits;
}

pub emit_unchecked-IsBalanced :
    (s : Lexer) (t : TokenType) → IsBalanced s → Plain t → IsBalanced (emit_unchecked s t)
unfolding emit_unchecked
emit_unchecked-IsBalanced s t b p = elim (Bool-cases (leb max_tokens (length s.tokens))) [
  | inl full ↦ rw full b
  | inr room ↦ rw room (
      Emitted-IsBalanced s _ t b p
        (append-Emitted s (record { type = t; int_val = 0; str_val = []; line = s.line }) room))
]
