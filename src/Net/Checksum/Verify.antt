-- ===== src/Net/Checksum/Verify.antt =====
-- A checksum that is filled in as the source does validates at the receiver.
use gecko_os_mac_compatabili.Common.{
  ℕ, suc, ◌+◌, ◌*◌, ◌/◌, ◌%◌, ◌^◌, ◌≤◌, ◌<◌, ◌≡◌, ap, ◌∙◌, List, [], ◌∷◌, ◌++◌, ◌==◌, if◌then◌else◌,
  arith, length,
}
use gecko_os_mac_compatabili.Net.Bytes.{be16, IsBytes}
use gecko_os_mac_compatabili.Net.Checksum.{
  complement, pseudo_header, checksum_add, udp_checksum, ip_checksum, icmp_checksum,
}
use gecko_os_mac_compatabili.Net.Checksum.Fold.{
  ones, fold-ones, total, total-le, checksum_add-total, total_le, sum_le16-total,
}

total-pseudo_header : (src dst len : ℕ) → total (pseudo_header src dst len) ≤ 6 * 65535
unfolding total
total-pseudo_header src dst len = omega arith

-- The checksum of a datagram of at most 65535 bytes, by the sum of all words.
udp_checksum-total :
    (src dst : ℕ) (p : List ℕ)
    → IsBytes p
    → length p < 2 ^ 16
    → udp_checksum src dst p
      ≡ complement (ones (total (pseudo_header src dst (length p)) + total p))
unfolding udp_checksum
udp_checksum-total src dst p h l = rw (sums, fold-ones _ small)
  where
    head : List ℕ
    head = pseudo_header src dst (length p)

    head_small : total head ≤ 6 * 65535
    head_small = total-pseudo_header src dst (length p)

    small : total head + total p < 2 ^ 32
    small = omega (arith, head_small, total-le p h)

    sums : checksum_add (checksum_add 0 head) p ≡ total head + total p
    sums =
        ap (λ (s : ℕ). checksum_add s p) (checksum_add-total 0 head (omega (arith, head_small)))
        ∙ checksum_add-total (0 + total head) p (omega (arith, small))
        ∙ omega arith

-- Adding the one's-complement negation of a sum that is not 0 makes it fold to all ones, with the
-- negation sent as all ones where it is 0.
ones_cancel :
    (s c : ℕ)
    → 0 < s
    → c ≡ complement (ones s)
    → complement (ones (s + (if c == 0 then 0xFFFF else c))) ≡ 0
unfolding ones
ones_cancel s c h e = ground arith

byte : (v : ℕ) → v % 256 < 256
byte v = omega arith

be16-total : (v : ℕ) → v < 2 ^ 16 → v / 256 % 256 * 256 + v % 256 ≡ v
be16-total v h = omega arith

complement_lt : (s : ℕ) → complement s < 2 ^ 16
complement_lt s = omega arith

-- The even-aligned checksum field is one more word of the sum.
total-field :
    (a b c d e f v : ℕ) (p : List ℕ)
    → v < 2 ^ 16
    → total (a ∷ b ∷ c ∷ d ∷ e ∷ f ∷ be16 v ++ p) ≡ total (a ∷ b ∷ c ∷ d ∷ e ∷ f ∷ 0 ∷ 0 ∷ p) + v
unfolding total
total-field a b c d e f v p h = omega arith

IsBytes-field :
    (sp dp len v : ℕ) (p : List ℕ)
    → IsBytes p
    → IsBytes (be16 sp ++ be16 dp ++ be16 len ++ be16 v ++ p)
IsBytes-field sp dp len v p h =
    (byte _, (byte _, (byte _, (byte _, (byte _, (byte _, (byte _, (byte _, h))))))))

total-positive : (src dst len : ℕ) (p : List ℕ) → 0 < total (pseudo_header src dst len) + total p
unfolding total
total-positive src dst len p = omega arith

-- A datagram of at most 65535 bytes whose checksum field holds the checksum over the field zero,
-- or all ones where that is 0, has checksum 0.
pub udp_checksum-field :
    (src dst sp dp len : ℕ) (payload : List ℕ) (v : ℕ)
    → IsBytes payload
    → length payload + 8 < 2 ^ 16
    → v ≡ udp_checksum src dst (be16 sp ++ be16 dp ++ be16 len ++ 0 ∷ 0 ∷ payload)
    → udp_checksum src dst
        (be16 sp ++ be16 dp ++ be16 len ++ be16 (if v == 0 then 0xFFFF else v) ++ payload)
      ≡ 0
udp_checksum-field src dst sp dp len payload v h l e =
    let q : List ℕ = be16 sp ++ be16 dp ++ be16 len ++ 0 ∷ 0 ∷ payload in
    let w : ℕ = if v == 0 then 0xFFFF else v in
    let size : ℕ = suc (suc (suc (suc (suc (suc (suc (suc (length payload)))))))) in
    let sum : ℕ = total (pseudo_header src dst size) + total q in
    let value : v ≡ complement (ones sum) =
      e ∙ udp_checksum-total src dst q (IsBytes-field sp dp len 0 payload h) (omega arith) in
    let fits : w < 2 ^ 16 = ground (arith, value, complement_lt (ones sum)) in
    udp_checksum-total src dst _ (IsBytes-field sp dp len w payload h) (omega arith)
    ∙ ap (λ (t : ℕ). complement (ones t))
        (ap (λ (t : ℕ). total (pseudo_header src dst size) + t)
            (total-field (sp / 256 % 256) (sp % 256) (dp / 256 % 256) (dp % 256) (len / 256 % 256)
              (len % 256) w payload fits)
          ∙ omega arith)
    ∙ ones_cancel sum v (total-positive src dst size q) value

-- The little-endian checksum of at most 65535 bytes, by the sum of all words.
total_le-le : (p : List ℕ) → IsBytes p → 2 * total_le p ≤ (length p + 1) * 65535
unfolding total_le
total_le-le [] h = omega arith
total_le-le (a ∷ []) h = omega arith
total_le-le (a ∷ b ∷ p) h = omega (arith, total_le-le p h.1.1)

pub ip_checksum-total :
    (p : List ℕ) → IsBytes p → length p < 2 ^ 16 → ip_checksum p ≡ complement (ones (total_le p))
unfolding ip_checksum
ip_checksum-total p h l =
    rw
      (
        sum_le16-total 0 p (omega (arith, total_le-le p h)),
        fold-ones (0 + total_le p) (omega (arith, total_le-le p h)),
      )
      (ap (λ (t : ℕ). complement (ones t)) {x = 0 + total_le p} (omega arith))

pub icmp_checksum-total :
    (p : List ℕ) → IsBytes p → length p < 2 ^ 16 → icmp_checksum p ≡ complement (ones (total_le p))
unfolding icmp_checksum
icmp_checksum-total p h l =
    rw
      (
        sum_le16-total 0 p (omega (arith, total_le-le p h)),
        fold-ones (0 + total_le p) (omega (arith, total_le-le p h)),
      )
      (ap (λ (t : ℕ). complement (ones t)) {x = 0 + total_le p} (omega arith))

-- Here a negation that is 0 stays 0.
pub ones_cancel_zero : (s : ℕ) → 0 < s → complement (ones (s + complement (ones s))) ≡ 0
unfolding ones
ones_cancel_zero s h = ground arith
