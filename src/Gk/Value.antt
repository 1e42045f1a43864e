-- ===== src/Gk/Value.antt =====
-- include/gk/gk.h and the helpers of kernel/gk/gk_interp.c: values. An `int` is its 32-bit pattern,
-- a string its characters up to the 0.
pub mod Decimal
use mathlib.Core.Option
use gecko_os_mac_compatabili.Common.{
  ℕ, zero, suc, ◌+◌, ◌-◌, ◌*◌, ◌/◌, ◌%◌, Bool, true, false, not, List, [], ◌∷◌, ◌++◌, Option, none,
  some, ltb, leb, ◌==◌, ◌||◌, if◌then◌else◌, length, take,
}
use gecko_os_mac_compatabili.Gk.Token.{max_str}

pub data Value : Type 0 where
  val_int : ℕ → Value
  val_str : List ℕ → Value
  val_bool : Bool → Value
  val_none : Value

-- 2 ^ 32 and 2 ^ 31, the pattern of the least number.
abbrev pub word : ℕ
word = 4294967296

abbrev pub least_int : ℕ
least_int = 2147483648

abbrev pub is_negative : ℕ → Bool
is_negative v = leb least_int v

abbrev pub negate : ℕ → ℕ
negate v = (word - v) % word

abbrev pub magnitude : ℕ → ℕ
magnitude v = if is_negative v then negate v else v

abbrev pub with_sign : Bool → ℕ → ℕ
with_sign true v = negate v
with_sign false v = v

-- `a < b` as signed numbers.
abbrev pub less : ℕ → ℕ → Bool
less a b =
    if is_negative a
    then (if is_negative b then ltb a b else true)
    else (if is_negative b then false else ltb a b)

abbrev pub reversed : List ℕ → List ℕ
reversed [] = []
reversed (c ∷ cs) = reversed cs ++ (c ∷ [])

-- The characters that the loop `while (v > 0)` puts into `tmp`; it runs at most ten times.
unfoldable pub digits : ℕ → ℕ → List ℕ
digits zero v = []
digits (suc k) v = let more = digits k (v / 10) in if v == 0 then [] else (b'0' + v % 10) ∷ more

-- `-v` wraps, so that the loop sees a negative number when `v` is the least one.
unfoldable pub int_to_str : ℕ → List ℕ
int_to_str v =
    if v == 0
    then b'0' ∷ []
    else (let m = magnitude v in
        let tmp = if is_negative m then [] else digits 10 m in
        reversed (if is_negative v then tmp ++ (b'-' ∷ []) else tmp))

-- "True", "False" and "None".
abbrev pub true_text : List ℕ
true_text = b'T' ∷ b'r' ∷ b'u' ∷ b'e' ∷ []

abbrev pub false_text : List ℕ
false_text = b'F' ∷ b'a' ∷ b'l' ∷ b's' ∷ b'e' ∷ []

abbrev pub none_text : List ℕ
none_text = b'N' ∷ b'o' ∷ b'n' ∷ b'e' ∷ []

unfoldable pub is_truthy : Value → Bool
is_truthy (val_int v) = not (v == 0)
is_truthy (val_str []) = false
is_truthy (val_str (c ∷ cs)) = true
is_truthy (val_bool b) = b
is_truthy val_none = false

unfoldable pub val_to_str : Value → List ℕ
unfolding int_to_str
val_to_str (val_int v) = int_to_str v
val_to_str (val_str cs) = cs
val_to_str (val_bool b) = if b then true_text else false_text
val_to_str val_none = none_text

-- The target holds GK_MAX_STR characters, the last of them 0.
unfoldable pub strcat_s : List ℕ → List ℕ → List ℕ
strcat_s dst src = dst ++ take (max_str - 1 - length dst) src

-- The loop of `int()` over the digits.
unfoldable pub parse_digits : ℕ → List ℕ → Option ℕ
parse_digits v [] = some v
parse_digits v (c ∷ cs) =
    let more = parse_digits ((v * 10 + (c - b'0')) % word) cs in
    if ltb c b'0' || ltb b'9' c then none else more

abbrev parse_signed : Bool → List ℕ → Option ℕ
parse_signed neg [] = none
parse_signed neg (c ∷ cs) = Option.map (with_sign neg) (parse_digits 0 (c ∷ cs))

-- `int()` of a string.
unfoldable pub parse_int : List ℕ → Option ℕ
unfolding parse_digits
parse_int [] = none
parse_int (c ∷ cs) = if c == b'-' then parse_signed true cs else parse_signed false (c ∷ cs)
