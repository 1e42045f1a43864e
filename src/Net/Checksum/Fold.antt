-- ===== src/Net/Checksum/Fold.antt =====
-- The folding loop computes the sum modulo 2^16 - 1, with 2^16 - 1 for a multiple that is not 0.
use gecko_os_mac_compatabili.Common.{
  ℕ, ◌+◌, ◌-◌, ◌*◌, ◌%◌, ◌^◌, ◌≤◌, ◌<◌, ◌≡◌, List, [], ◌∷◌, ◌==◌, if◌then◌else◌, arith, length,
}
use gecko_os_mac_compatabili.Net.Checksum.{fold, fold_rounds, checksum_add, sum_le16}
use gecko_os_mac_compatabili.Net.Bytes.{IsBytes}

-- One's-complement value of a sum.
unfoldable pub ones : ℕ → ℕ
ones s = if s == 0 then 0 else (s - 1) % 65535 + 1

-- On every `uint32_t` the folding loop ends within three rounds, at the one's-complement value:
-- 0 for 0, and otherwise the number from 1 to 65535 that is equal to the sum modulo 65535.
pub fold-ones : (s : ℕ) → s < 2 ^ 32 → fold fold_rounds s ≡ ones s
unfolding fold ones
fold-ones s h = ground arith

-- The sum of big-endian words, with no wrap.
unfoldable pub total : List ℕ → ℕ
total [] = 0
total (a ∷ []) = a * 256
total (a ∷ b ∷ p) = a * 256 + b + total p

pub total-le : (p : List ℕ) → IsBytes p → 2 * total p ≤ (length p + 1) * 65535
unfolding total
total-le [] h = omega arith
total-le (a ∷ []) h = omega arith
total-le (a ∷ b ∷ p) h = omega (arith, total-le p h.1.1)

pub checksum_add-total :
    (sum : ℕ) (p : List ℕ) → sum + total p < 2 ^ 32 → checksum_add sum p ≡ sum + total p
unfolding checksum_add total
checksum_add-total sum [] h = omega arith
checksum_add-total sum (a ∷ []) h = omega arith
checksum_add-total sum (a ∷ b ∷ p) h =
    omega (arith, checksum_add-total ((sum + (a * 256 + b)) % 2 ^ 32) p (omega arith))

-- The sum of little-endian words, with no wrap.
unfoldable pub total_le : List ℕ → ℕ
total_le [] = 0
total_le (a ∷ []) = a
total_le (a ∷ b ∷ p) = a + b * 256 + total_le p

pub sum_le16-total :
    (sum : ℕ) (p : List ℕ) → sum + total_le p < 2 ^ 32 → sum_le16 sum p ≡ sum + total_le p
unfolding sum_le16 total_le
sum_le16-total sum [] h = omega arith
sum_le16-total sum (a ∷ []) h = omega arith
sum_le16-total sum (a ∷ b ∷ p) h =
    omega (arith, sum_le16-total ((sum + (a + b * 256)) % 2 ^ 32) p (omega arith))
