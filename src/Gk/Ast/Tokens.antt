-- ===== src/Gk/Ast/Tokens.antt =====
-- Steps over tokens, and results that are not a run out of rounds.
use gecko_os_mac_compatabili.Common.{
  ◌≤◌, ◌<◌, ◌≡◌, refl, true, false, List, [], ◌∷◌, arith, length, Bool-cases, inl, inr, drop,
}
use gecko_os_mac_compatabili.Gk.Token.{TokenType, tok_eof, Token}
use gecko_os_mac_compatabili.Gk.Ast.{
  Parser, ParseError, Parsed, parsed, failed, overrun, out_of_fuel, ◌>>=◌, ◌is◌, peek_at, advance,
  check, match_token, expect, drop_newlines,
}

abbrev pub Sat : {A : Type 0} → (A → Type 0) → Parsed A → Type 0
Sat P (parsed a) = P a
Sat P (failed m) = Unit {0}
Sat P overrun = Unit {0}
Sat P out_of_fuel = ⊥

pub Sat-bind :
    {A B : Type 0} (P : A → Type 0) (Q : B → Type 0) (r : Parsed A) (k : A → Parsed B)
    → Sat P r
    → ((a : A) → P a → Sat Q (k a))
    → Sat Q (r >>= k)
Sat-bind P Q (parsed a) k h f = f a h
Sat-bind P Q (failed m) k h f = tt
Sat-bind P Q overrun k h f = tt
Sat-bind P Q out_of_fuel k h f = h

pub Sat-map :
    {A : Type 0} (P Q : A → Type 0) (r : Parsed A) → Sat P r → ((a : A) → P a → Q a) → Sat Q r
Sat-map P Q (parsed a) h f = f a h
Sat-map P Q (failed m) h f = tt
Sat-map P Q overrun h f = tt
Sat-map P Q out_of_fuel h f = h

-- The nodes stay, and no token comes back.
pub record Later (s t : Parser) : Type 0 where
  pub same_nodes : t.nodes ≡ s.nodes
  pub fewer : length t.rest ≤ length s.rest

abbrev pub Past : Parser → Parser → Type 0
Past s t = (t.nodes ≡ s.nodes) × (length t.rest < length s.rest)

peek_at-past :
    (ts : List Token) → ((peek_at ts).type is tok_eof) ≡ false → length (drop 1 ts) < length ts
peek_at-past [] h = cc
peek_at-past (t ∷ ts) h = omega arith

pub advance-Past : (s : Parser) → check s tok_eof ≡ false → Past s (advance s)
unfolding advance
advance-Past s h = rw h (refl, peek_at-past s.rest h)

-- A token of another type is not the last one.
not_end :
    (s : Parser) (t : TokenType)
    → check s t ≡ true
    → (t is tok_eof) ≡ false
    → check s tok_eof ≡ false
not_end s t h e = ground arith

pub check-advance-Past :
    (s : Parser) (t : TokenType) → check s t ≡ true → (t is tok_eof) ≡ false → Past s (advance s)
check-advance-Past s t h e = advance-Past s (not_end s t h e)

pub advance-Later : (s : Parser) → Later s (advance s)
advance-Later s = elim (Bool-cases (check s tok_eof)) [
  | inl end ↦ unfold advance in rw end (record { same_nodes = refl; fewer = omega arith })
  | inr more ↦ record {
    same_nodes = (advance-Past s more).0;
    fewer = omega (arith, (advance-Past s more).1);
  }
]

pub match_token-Later : (s : Parser) (t : TokenType) → Later s (match_token s t)
unfolding match_token
match_token-Later s t = elim (Bool-cases (check s t)) [
  | inl yes_it_is ↦ rw yes_it_is (advance-Later s)
  | inr other ↦ rw other (record { same_nodes = refl; fewer = omega arith })
]

pub expect-Past :
    (t : TokenType) (m : ParseError) (s : Parser)
    → (t is tok_eof) ≡ false
    → Sat (Past s) (expect t m s)
unfolding expect
expect-Past t m s e = elim (Bool-cases (check s t)) [
  | inl here ↦ rw here (check-advance-Past s t here e)
  | inr other ↦ rw other tt
]

pub length-drop_newlines : (ts : List Token) → length (drop_newlines ts) ≤ length ts
unfolding drop_newlines
length-drop_newlines [] = omega arith
length-drop_newlines (t ∷ ts) = ground (arith, length-drop_newlines ts)
