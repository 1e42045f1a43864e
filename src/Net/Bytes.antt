-- ===== src/Net/Bytes.antt =====
-- Byte buffers. A packet is the list of the bytes from its pointer on, a byte is below 256, and a
-- read past the end of the buffer gives 0.
use gecko_os_mac_compatabili.Common.{
  ℕ, zero, suc, ◌+◌, ◌*◌, ◌/◌, ◌%◌, ◌^◌, ◌<◌, ◌≡◌, refl, ap, List, [], ◌∷◌, ◌++◌, arith, length,
  get_or, drop,
}

-- `p[i]`
abbrev pub byte_at : List ℕ → ℕ → ℕ
byte_at p i = get_or p i 0

-- `n` bytes from the start of a buffer.
abbrev pub read : ℕ → List ℕ → List ℕ
read zero p = []
read (suc n) [] = 0 ∷ read n []
read (suc n) (x ∷ p) = x ∷ read n p

-- `memcpy(p + off, src, n)` inside a buffer, with `src` the `n` bytes.
abbrev pub write_at : List ℕ → ℕ → List ℕ → List ℕ
write_at p zero [] = p
write_at [] zero (x ∷ src) = []
write_at (y ∷ p) zero (x ∷ src) = x ∷ write_at p zero src
write_at [] (suc off) src = []
write_at (y ∷ p) (suc off) src = y ∷ write_at p off src

-- The bytes of `__builtin_bswap16(v)` and `__builtin_bswap32(v)` in memory.
abbrev pub be16 : ℕ → List ℕ
be16 v = (v / 256 % 256) ∷ (v % 256) ∷ []

abbrev pub be32 : ℕ → List ℕ
be32 v = (v / 2 ^ 24 % 256) ∷ (v / 2 ^ 16 % 256) ∷ (v / 256 % 256) ∷ (v % 256) ∷ []

-- The number that `__builtin_bswap16` and `__builtin_bswap32` make of the bytes at an offset.
abbrev pub from_be16 : List ℕ → ℕ → ℕ
from_be16 p i = byte_at p i * 256 + byte_at p (suc i)

abbrev pub from_be32 : List ℕ → ℕ → ℕ
from_be32 p i =
    byte_at p i * 2 ^ 24
    + byte_at p (suc i) * 2 ^ 16
    + byte_at p (suc (suc i)) * 256
    + byte_at p (suc (suc (suc i)))

abbrev pub IsBytes : List ℕ → Type 0
IsBytes [] = Unit {0}
IsBytes (x ∷ p) = (x < 256) × IsBytes p

pub read-append : (p rest : List ℕ) → read (length p) (p ++ rest) ≡ p
read-append [] rest = refl
read-append (x ∷ p) rest = ap (λ t. x ∷ t) (read-append p rest)

length-read : (n : ℕ) (p : List ℕ) → length (read n p) ≡ n
length-read zero p = refl
length-read (suc n) [] = ap suc (length-read n [])
length-read (suc n) (x ∷ p) = ap suc (length-read n p)

drop-append : (p rest : List ℕ) → drop (length p) (p ++ rest) ≡ rest
drop-append [] rest = refl
drop-append (x ∷ p) rest = drop-append p rest

length-write_at : (p : List ℕ) (off : ℕ) (src : List ℕ) → length (write_at p off src) ≡ length p
length-write_at p zero [] = refl
length-write_at [] zero (x ∷ src) = refl
length-write_at (y ∷ p) zero (x ∷ src) = ap suc (length-write_at p zero src)
length-write_at [] (suc off) src = refl
length-write_at (y ∷ p) (suc off) src = ap suc (length-write_at p off src)

-- A packet written at the start of a buffer is read back.
pub read-write_at :
    (src p : List ℕ) → length src < suc (length p) → read (length src) (write_at p 0 src) ≡ src
read-write_at [] p h = refl
read-write_at (x ∷ src) [] h = absurd (omega arith)
read-write_at (x ∷ src) (y ∷ p) h = ap (λ t. x ∷ t) (read-write_at src p (omega arith))
