-- ===== src/Gk/Lexer/Read.antt =====
-- The tables hold no token of indentation, and the loops over characters leave no more than they got.
use gecko_os_mac_compatabili.Common.{
  ℕ, zero, suc, ◌+◌, ◌-◌, ◌*◌, ◌%◌, ◌^◌, ◌≤◌, ◌≡◌, inl, inr, refl, true, List, [], ◌∷◌, ◌==◌, arith,
  length, Option, some, none, drop, Bool-cases,
}
use gecko_os_mac_compatabili.Gk.Token.{TokenType}
use gecko_os_mac_compatabili.Gk.Lexer.{
  find_keyword, read_int, read_word, read_string, skip_line, find_operator, count_leading, is_alnum,
  same_text,
}
use gecko_os_mac_compatabili.Gk.Lexer.Emit.{Plain}

abbrev pub AllPlain : List (List ℕ × TokenType) → Type 0
AllPlain [] = Unit {0}
AllPlain ((k, t) ∷ table) = Plain t × AllPlain table

pub find_keyword-Plain :
    (word : List ℕ) (table : List (List ℕ × TokenType))
    → AllPlain table
    → Plain (find_keyword word table)
unfolding find_keyword
find_keyword-Plain word [] h = (refl, refl)
find_keyword-Plain word ((k, t) ∷ table) h = elim (Bool-cases (same_text word k)) [
  | inl hit ↦ rw hit (h.0.0, h.0.1)
  | inr miss ↦ rw miss (find_keyword-Plain word table h.1)
]

abbrev pub AllPlainOperators : List (ℕ × TokenType) → Type 0
AllPlainOperators [] = Unit {0}
AllPlainOperators ((d, t) ∷ table) = Plain t × AllPlainOperators table

abbrev pub PlainIfAny : Option TokenType → Type 0
PlainIfAny none = Unit {0}
PlainIfAny (some t) = Plain t

pub find_operator-Plain :
    (c : ℕ) (table : List (ℕ × TokenType))
    → AllPlainOperators table
    → PlainIfAny (find_operator c table)
unfolding find_operator
find_operator-Plain c [] h = tt
find_operator-Plain c ((d, t) ∷ table) h = elim (Bool-cases (c == d)) [
  | inl hit ↦ rw hit (h.0.0, h.0.1)
  | inr miss ↦ rw miss (find_operator-Plain c table h.1)
]

pub read_int-le : (v : ℕ) (cs : List ℕ) → length (read_int v cs).1 ≤ length cs
unfolding read_int
read_int-le v [] = omega arith
read_int-le v (c ∷ cs) = ground (arith, read_int-le ((v * 10 + (c - b'0')) % 2 ^ 32) cs)

read_word-le : (n : ℕ) (cs : List ℕ) → length (read_word n cs).1 ≤ length cs
unfolding read_word
read_word-le zero cs = omega arith
read_word-le (suc n) [] = omega arith
read_word-le (suc n) (c ∷ cs) = ground (arith, read_word-le n cs)

pub read_word-shorter :
    (n c : ℕ) (cs : List ℕ) → is_alnum c ≡ true → length (read_word (suc n) (c ∷ cs)).1 ≤ length cs
unfolding read_word
read_word-shorter n c cs e = rw e (read_word-le n cs)

pub read_string-le : (quote n : ℕ) (cs : List ℕ) → length (read_string quote n cs).1 ≤ length cs
unfolding read_string
read_string-le quote zero cs = omega arith
read_string-le quote (suc n) [] = omega arith
read_string-le quote (suc n) (c ∷ []) = ground arith
read_string-le quote (suc n) (c ∷ d ∷ cs) =
    ground (arith, read_string-le quote n cs, read_string-le quote n (d ∷ cs))

pub skip_line-le : (cs : List ℕ) → length (skip_line cs) ≤ length cs
unfolding skip_line
skip_line-le [] = omega arith
skip_line-le (c ∷ cs) = ground (arith, skip_line-le cs)

pub count_leading-le : (d : ℕ) (cs : List ℕ) → length (count_leading d cs).1 ≤ length cs
unfolding count_leading
count_leading-le d [] = omega arith
count_leading-le d (c ∷ cs) = ground (arith, count_leading-le d cs)

pub drop-le : (cs : List ℕ) → length (drop 1 cs) ≤ length cs
drop-le [] = omega arith
drop-le (c ∷ cs) = omega arith
