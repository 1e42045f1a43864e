-- ===== src/Net/Checksum.antt =====
-- The Internet checksum: `checksum_add` and `udp_checksum` of kernel/net/udp.c over big-endian
-- words, `ip_checksum` of ip.c and `icmp_checksum` of icmp.c over little-endian words.
pub mod Fold
pub mod Verify
use gecko_os_mac_compatabili.Common.{
  ℕ, zero, suc, ◌+◌, ◌-◌, ◌*◌, ◌/◌, ◌%◌, ◌^◌, List, [], ◌∷◌, ◌++◌, ◌==◌, if◌then◌else◌, length,
}
use gecko_os_mac_compatabili.Net.Bytes.{be16, be32}

-- `sum` is a `uint32_t`.
pub checksum_add : ℕ → List ℕ → ℕ
checksum_add sum [] = sum
checksum_add sum (a ∷ []) = (sum + a * 256) % 2 ^ 32
checksum_add sum (a ∷ b ∷ p) = checksum_add ((sum + (a * 256 + b)) % 2 ^ 32) p

-- `while (sum >> 16) sum = (sum & 0xFFFF) + (sum >> 16)`
pub fold : ℕ → ℕ → ℕ
fold zero sum = sum
fold (suc f) sum =
    let rest = fold f (sum % 2 ^ 16 + sum / 2 ^ 16) in if sum / 2 ^ 16 == 0 then sum else rest

-- Three rounds are more than a `uint32_t` takes.
abbrev pub fold_rounds : ℕ
fold_rounds = 3

-- `(uint16_t)~sum`
abbrev pub complement : ℕ → ℕ
complement sum = 2 ^ 16 - 1 - sum % 2 ^ 16

abbrev pub pseudo_header : ℕ → ℕ → ℕ → List ℕ
pseudo_header src_ip dst_ip udp_len = be32 src_ip ++ be32 dst_ip ++ 0 ∷ 17 ∷ be16 udp_len

-- `udp` is the datagram, `udp_len` bytes.
pub udp_checksum : ℕ → ℕ → List ℕ → ℕ
unfolding checksum_add fold
udp_checksum src_ip dst_ip udp = complement (
    fold fold_rounds (checksum_add (checksum_add 0 (pseudo_header src_ip dst_ip (length udp))) udp))

-- The sum over little-endian words.
pub sum_le16 : ℕ → List ℕ → ℕ
sum_le16 sum [] = sum
sum_le16 sum (a ∷ []) = (sum + a) % 2 ^ 32
sum_le16 sum (a ∷ b ∷ p) = sum_le16 ((sum + (a + b * 256)) % 2 ^ 32) p

pub ip_checksum : List ℕ → ℕ
unfolding sum_le16 fold
ip_checksum p = complement (fold fold_rounds (sum_le16 0 p))

pub icmp_checksum : List ℕ → ℕ
unfolding sum_le16 fold
icmp_checksum p = complement (fold fold_rounds (sum_le16 0 p))
