-- ===== src/Gk/Value/Decimal.antt =====
-- `int()` and the decimal digits of a number.
use mathlib.Core.Option
use native.Mathlib.Nat.{pow-suc}
use gecko_os_mac_compatabili.Common.{
  ℕ, zero, suc, ◌+◌, ◌-◌, ◌*◌, ◌/◌, ◌%◌, ◌^◌, ◌<◌, ◌≡◌, ◌≢◌, refl, ap, ◌∙◌, sym, true, false, List,
  [], ◌∷◌, ◌++◌, Option, none, some, ltb, ◌==◌, ◌||◌, arith, Bool-cases, inl, inr,
}
use gecko_os_mac_compatabili.Gk.Value.{
  word, least_int, is_negative, negate, with_sign, reversed, digits, int_to_str, parse_digits,
  parse_int,
}

-- One more digit at the end.
parse_digits-snoc :
    (v : ℕ) (cs : List ℕ) (d : ℕ)
    → d < 10
    → parse_digits v (cs ++ ((b'0' + d) ∷ []))
      ≡ Option.map (λ r. (r * 10 + d) % word) (parse_digits v cs)
unfolding parse_digits
parse_digits-snoc v [] d h = ground arith
parse_digits-snoc v (c ∷ cs) d h = elim (Bool-cases (ltb c b'0' || ltb b'9' c)) [
  | inl other ↦ rw other refl
  | inr digit ↦ rw digit (parse_digits-snoc ((v * 10 + (c - b'0')) % word) cs d h)
]

parse_digits-digits :
    (k v : ℕ) → v < 10 ^ k → v < 4294967296 → parse_digits 0 (reversed (digits k v)) ≡ some v
unfolding digits parse_digits
parse_digits-digits zero v h l = ap some (omega (arith, h))
parse_digits-digits (suc k) v h l = elim (Bool-cases (v == 0)) [
  | inl none_left ↦ rw none_left (ap some (ground (arith, none_left)))
  | inr more ↦ rw more (
      parse_digits-snoc 0 (reversed (digits k (v / 10))) (v % 10) (omega arith)
      ∙ ap (Option.map (λ r. (r * 10 + v % 10) % word))
          (parse_digits-digits k (v / 10) (omega (arith, pow-suc 10 k)) (omega arith))
      ∙ ap some (omega arith))
]

-- Digits of a number that is not 0 are read as it is.
parse_int-digits :
    (cs : List ℕ) (m : ℕ) → parse_digits 0 cs ≡ some m → 0 < m → parse_int cs ≡ some m
unfolding parse_int parse_digits
parse_int-digits [] m e h =
    absurd (omega (arith, ap {B = ℕ} (λ (o : Option ℕ). elim o [ none ↦ 0 | some v ↦ v ]) e))
parse_int-digits (c ∷ cs) m e h = elim (Bool-cases (c == b'-')) [
  | inl minus ↦
      let small : (ltb c b'0' || ltb b'9' c) ≡ true = ground (arith, minus) in
      let nothing : parse_digits 0 (c ∷ cs) ≡ none = rw (small, parse_digits) refl in
      let contradiction : none ≡ some m = sym nothing ∙ e in absurd (cc)
  | inr digit ↦ rw (digit, parse_int) (ap (Option.map (with_sign false)) e)
]

parse_int-minus :
    (cs : List ℕ) (m : ℕ)
    → parse_digits 0 cs ≡ some m
    → 0 < m
    → parse_int (b'-' ∷ cs) ≡ some (negate m)
unfolding parse_int parse_digits
parse_int-minus [] m e h =
    absurd (omega (arith, ap {B = ℕ} (λ (o : Option ℕ). elim o [ none ↦ 0 | some v ↦ v ]) e))
parse_int-minus (c ∷ cs) m e h = ap (Option.map (with_sign true)) e

reversed-snoc : (cs : List ℕ) (c : ℕ) → reversed (cs ++ (c ∷ [])) ≡ c ∷ reversed cs
reversed-snoc [] c = refl
reversed-snoc (d ∷ cs) c = ap (λ (t : List ℕ). t ++ (d ∷ [])) (reversed-snoc cs c)

-- `int()` reads the decimal digits of a 32-bit number back as that number, unless it is the
-- least one.
pub parse_int-int_to_str :
    (v : ℕ) → v < 4294967296 → v ≢ 2147483648 → parse_int (int_to_str v) ≡ some v
unfolding int_to_str
parse_int-int_to_str v h n = elim (Bool-cases (v == 0)) [
  | inl nothing ↦
      rw (nothing, int_to_str) (unfold parse_int parse_digits in ap some (ground (arith, nothing)))
  | inr more ↦ elim (Bool-cases (is_negative v)) [
    | inl negative ↦
        let small : is_negative (negate v) ≡ false = ground (arith, negative, n) in
        rw (more, negative, small, int_to_str)
          (ap parse_int (reversed-snoc (digits 10 (negate v)) b'-')
            ∙ parse_int-minus (reversed (digits 10 (negate v))) (negate v)
                (parse_digits-digits 10 (negate v) (ground (arith, negative, n)) (omega arith))
                (ground (arith, negative))
            ∙ ap some (ground (arith, negative)))
    | inr positive ↦
        rw (more, positive, positive, int_to_str)
          (parse_int-digits (reversed (digits 10 v)) v
            (parse_digits-digits 10 v (ground (arith, positive)) h) (ground (arith, more)))
  ]
]

-- What stands for the least number has no digit.
int_to_str-least : parse_int (int_to_str least_int) ≡ none
unfolding int_to_str digits parse_int
int_to_str-least = refl
