-- ===== src/Common/Bits.antt =====
-- The bits of a machine word, and what `&`, `|` and `~` do to them.
-- `bit w k` is bit `k` of the word, 0 or 1.
use Prim.Native.Nat.{ℕ, zero, suc, ◌+◌, ◌-◌, ◌*◌, ◌/◌, ◌%◌, ◌^◌, ◌≤◌, ◌<◌, min, max}
use Prim.Native.Nat.{bit_and, bit_or, digits, bit_and-bitwise, bit_or-bitwise}
use mathlib.Core.Path.{◌≡◌, refl, ap, sym, ◌∙◌}
use mathlib.Core.Logic.{◌≢◌}
use native.Mathlib.Omega.{arith}
use gecko_os_mac_compatabili.Common.Tests.{ltb, if◌then◌else◌}
use native.Mathlib.Nat.{pow-suc, one-le-pow, div-div-eq-div-mul}

-- Bit `k` of a word, by halving.
pub bit : ℕ → ℕ → ℕ
bit w zero = w % 2
bit w (suc k) = bit (w / 2) k

pub bit-lt : (w k : ℕ) → bit w k < 2
unfolding bit
bit-lt w zero = omega arith
bit-lt w (suc k) = bit-lt (w / 2) k

-- A native operation puts together the digits that `f` makes of the digits of its arguments; `rest`
-- says what is left of the second when the first is used up.
module _ (rest : ℕ → ℕ) (f : ℕ → ℕ → ℕ) (f_bit : (x y : ℕ) → x < 2 → y < 2 → f x y < 2)
    (rest_bit : (w k : ℕ) → bit (rest w) k ≡ f 0 (bit w k)) (zero_bit : (k : ℕ) → bit 0 k ≡ 0) where
  used_up : (b k : ℕ) → bit (rest b) k ≡ f (bit 0 k) (bit b k)
  used_up b k = rw (zero_bit k) (rest_bit b k)

  bit-digits :
      (k rounds a b : ℕ) → a ≤ rounds → bit (digits rest f rounds a b) k ≡ f (bit a k) (bit b k)
  unfolding bit
  bit-digits k zero zero b h = used_up b k
  bit-digits k zero (suc a) b h = absurd (omega arith)
  bit-digits k (suc rounds) zero b h = used_up b k
  bit-digits zero (suc rounds) (suc a) b h =
      omega (arith, f_bit (suc a % 2) (b % 2) (omega arith) (omega arith))
  bit-digits (suc k) (suc rounds) (suc a) b h =
      ap (λ (w : ℕ). bit w k) high ∙ bit-digits k rounds (suc a / 2) (b / 2) (omega arith)
    where
      high :
          (digits rest f rounds (suc a / 2) (b / 2) * 2 + f (suc a % 2) (b % 2)) / 2
          ≡ digits rest f rounds (suc a / 2) (b / 2)
      high = omega (arith, f_bit (suc a % 2) (b % 2) (omega arith) (omega arith))

pub bit-zero : (k : ℕ) → bit 0 k ≡ 0
unfolding bit
bit-zero zero = refl
bit-zero (suc k) = bit-zero k

pub bit-bit_and : (a b k : ℕ) → bit (bit_and a b) k ≡ min (bit a k) (bit b k)
bit-bit_and a b k =
    ap (λ (w : ℕ). bit w k) (bit_and-bitwise a b)
    ∙ bit-digits (λ _. 0) min (λ x y p q. omega arith) (λ w j. omega (arith, bit-zero j)) bit-zero k
        a a b (omega arith)

pub bit-bit_or : (a b k : ℕ) → bit (bit_or a b) k ≡ max (bit a k) (bit b k)
bit-bit_or a b k =
    ap (λ (w : ℕ). bit w k) (bit_or-bitwise a b)
    ∙ bit-digits (λ w. w) max (λ x y p q. omega arith) (λ w j. omega arith) bit-zero k a a b
        (omega arith)

-- Two words are equal if all their bits are.
all_bits : (n a b : ℕ) → a ≤ n → b ≤ n → ((k : ℕ) → bit a k ≡ bit b k) → a ≡ b
unfolding bit
all_bits zero a b p q h = omega arith
all_bits (suc n) a b p q h =
    omega (arith, h 0, all_bits n (a / 2) (b / 2) (omega arith) (omega arith) (λ k. h (suc k)))

-- The lowest bit apart.
bit_and_step : (a b : ℕ) → bit_and a b ≡ bit_and (a / 2) (b / 2) * 2 + min (a % 2) (b % 2)
unfolding bit
bit_and_step a b =
    let low : ℕ = min (a % 2) (b % 2) in
    let high : ℕ = bit_and (a / 2) (b / 2) in
    all_bits (bit_and a b + (high * 2 + low)) (bit_and a b) (high * 2 + low) (omega arith)
      (omega arith) (λ k. bit-bit_and a b k ∙ sym (joined k))
  where
    joined :
        (k : ℕ)
        → bit (bit_and (a / 2) (b / 2) * 2 + min (a % 2) (b % 2)) k ≡ min (bit a k) (bit b k)
    joined zero = omega arith
    joined (suc k) =
        ap (λ (w : ℕ). bit w k) {y = bit_and (a / 2) (b / 2)} (omega arith)
        ∙ bit-bit_and (a / 2) (b / 2) k

bit_and-zero : (a : ℕ) → bit_and a 0 ≡ 0
bit_and-zero a =
    all_bits (bit_and a 0) (bit_and a 0) 0 (omega arith) (omega arith)
      (λ k. omega (arith, bit-bit_and a 0 k, bit-zero k))

pub bit_and-double : (a m : ℕ) → bit_and a (m * 2) ≡ bit_and (a / 2) m * 2
bit_and-double a m =
    let half : m * 2 / 2 ≡ m = omega arith in bit_and_step a (m * 2) ∙ rw half (omega arith)

pub bit_and-odd : (a m : ℕ) → bit_and a (m * 2 + 1) ≡ bit_and (a / 2) m * 2 + a % 2
bit_and-odd a m =
    let half : (m * 2 + 1) / 2 ≡ m = omega arith in
    bit_and_step a (m * 2 + 1) ∙ rw half (omega arith)

pub bit_and-three : (a : ℕ) → bit_and a 3 ≡ a % 4
bit_and-three a = omega (arith, bit_and_step a 3, bit_and_step (a / 2) 1, bit_and-zero (a / 2 / 2))

-- A single bit: `1u << j`.
pub bit-pow_self : (j : ℕ) → bit (2 ^ j) j ≡ 1
unfolding bit
bit-pow_self zero = refl
bit-pow_self (suc j) = ap (λ w. bit w j) (half) ∙ bit-pow_self j
  where
    half : 2 ^ suc j / 2 ≡ 2 ^ j
    half = omega (arith, pow-suc 2 j)

pub bit-pow_ne : (j k : ℕ) → j ≢ k → bit (2 ^ j) k ≡ 0
unfolding bit
bit-pow_ne zero zero h = absurd (h refl)
bit-pow_ne zero (suc k) h = bit-zero k
bit-pow_ne (suc j) zero h = omega (arith, pow-suc 2 j)
bit-pow_ne (suc j) (suc k) h = ap (λ w. bit w k) (half) ∙ bit-pow_ne j k (λ e. h (ap suc e))
  where
    half : 2 ^ suc j / 2 ≡ 2 ^ j
    half = omega (arith, pow-suc 2 j)

-- `~a` in an n-bit word.
pub bit-complement : (n a k : ℕ) → a < 2 ^ n → k < n → bit (2 ^ n - 1 - a) k ≡ 1 - bit a k
unfolding bit
bit-complement zero a k h l = absurd (omega arith)
bit-complement (suc n) a zero h l = omega (arith, pow-suc 2 n)
bit-complement (suc n) a (suc k) h l =
    ap (λ w. bit w k) (half) ∙ bit-complement n (a / 2) k (omega (arith, pow-suc 2 n)) (omega arith)
  where
    half : (2 ^ suc n - 1 - a) / 2 ≡ 2 ^ n - 1 - a / 2
    half = omega (arith, pow-suc 2 n)

-- `w & (1u << k)`.
pub bit_and-pow : (w k : ℕ) → bit_and w (2 ^ k) ≡ bit w k * 2 ^ k
unfolding bit
bit_and-pow w zero = omega (arith, bit_and_step w 1, bit_and-zero (w / 2))
bit_and-pow w (suc k) =
    ground (arith, bit_and_step w (2 ^ suc k), pow-suc 2 k, half, bit_and-pow (w / 2) k, twice)
  where
    half : 2 ^ suc k / 2 ≡ 2 ^ k
    half = omega (arith, pow-suc 2 k)

    twice : bit (w / 2) k * 2 ^ suc k ≡ 2 * (bit (w / 2) k * 2 ^ k)
    twice = omega (arith, ap (λ (t : ℕ). bit (w / 2) k * t) (pow-suc 2 k))

double_shift : (q k : ℕ) → q * 2 ^ suc k ≡ 2 * (q * 2 ^ k)
double_shift q k = omega (arith, ap (λ (t : ℕ). q * t) (pow-suc 2 k))

-- Filling the low `p` bits of a word with ones.
pub bit-fill :
    (p w k : ℕ) → bit ((w / 2 ^ p) * 2 ^ p + (2 ^ p - 1)) k ≡ (if ltb k p then 1 else bit w k)
unfolding bit
bit-fill zero w k =
    ground
      (arith, ap (λ (t : ℕ). bit t k) {x = (w / 2 ^ 0) * 2 ^ 0 + (2 ^ 0 - 1)} {y = w} (omega arith))
bit-fill (suc p) w zero =
    ground (arith, pow-suc 2 p, one-le-pow p 2, double_shift (w / 2 ^ suc p) p)
bit-fill (suc p) w (suc k) = ap (λ (t : ℕ). bit t k) half ∙ bit-fill p (w / 2) k ∙ same
  where
    quotient : w / 2 ^ suc p ≡ w / 2 / 2 ^ p
    quotient =
        ap (λ (t : ℕ). w / t) (omega (arith, pow-suc 2 p)) ∙ sym (div-div-eq-div-mul w 2 (2 ^ p))

    half :
        ((w / 2 ^ suc p) * 2 ^ suc p + (2 ^ suc p - 1)) / 2 ≡ (w / 2 / 2 ^ p) * 2 ^ p + (2 ^ p - 1)
    half = omega (
      arith,
      pow-suc 2 p,
      one-le-pow p 2,
      double_shift (w / 2 ^ suc p) p,
      ap (λ (t : ℕ). t * 2 ^ p) quotient,
    )

    same :
        (if ltb k p then 1 else bit (w / 2) k) ≡ (if ltb (suc k) (suc p) then 1 else bit (w / 2) k)
    same = ground arith
