-- ===== src/Net/Arp/Resolve.antt =====
-- A request and its reply teach both hosts each other's MAC.
use gecko_os_mac_compatabili.Common.{ℕ, ◌^◌, ◌<◌, ◌≡◌, refl, List, [], ◌∷◌, ◌++◌, arith, drop}
use gecko_os_mac_compatabili.Net.Bytes.{read, from_be16, from_be32}
use gecko_os_mac_compatabili.Net.Host.{Host}
use gecko_os_mac_compatabili.Net.Frame.{net_send_frame, ether_type_arp}
use gecko_os_mac_compatabili.Net.Arp.{
  arp_packet, arp_op_request, arp_op_reply, learn, answer_request, arp_handle,
}

-- A hardware address has six bytes.
abbrev pub IsMac : List ℕ → Type 0
IsMac m = (a b c d e f : ℕ) × (m ≡ a ∷ b ∷ c ∷ d ∷ e ∷ f ∷ [])

abbrev Parsed : ℕ → List ℕ → ℕ → ℕ → List ℕ → Type 0
Parsed op mac ip tip p =
    (from_be16 p 6 ≡ op)
    × (read 6 (drop 8 p) ≡ mac)
    × (from_be32 p 14 ≡ ip)
    × (from_be32 p 24 ≡ tip)

-- The fields of a packet are read back at their offsets.
arp_packet-Parsed :
    (op : ℕ) (mac : List ℕ) (ip : ℕ) (tmac : List ℕ) (tip : ℕ) (rest : List ℕ)
    → op < 2 ^ 16
    → IsMac mac
    → ip < 2 ^ 32
    → IsMac tmac
    → tip < 2 ^ 32
    → Parsed op mac ip tip (arp_packet op mac ip tmac tip ++ rest)
unfolding arp_packet
arp_packet-Parsed op mac ip tmac tip rest ho (a, b, c, d, e, f, m) hi (g, h, i, j, k, l, t) ht =
    rw (m, t) (omega arith, refl, omega arith, omega arith)

-- A request for this host's address, with six-byte MACs and 32-bit addresses, whatever follows
-- it in the buffer, is answered with this host's MAC and address, to the sender's MAC, and the
-- sender is learnt.
pub arp_handle-request :
    (h : Host) (mac : List ℕ) (ip : ℕ) (tmac rest : List ℕ)
    → IsMac mac
    → IsMac tmac
    → ip < 2 ^ 32
    → h.net_ip < 2 ^ 32
    → arp_handle h (arp_packet arp_op_request mac ip tmac h.net_ip ++ rest)
      ≡ record (net_send_frame h mac ether_type_arp
          (arp_packet arp_op_reply h.net_mac h.net_ip mac ip)) {
            arp_cache = learn ip mac h.arp_cache;
          }
unfolding arp_handle answer_request
arp_handle-request h mac ip tmac rest m t hi hn =
    ground (arith, arp_packet-Parsed 1 mac ip tmac h.net_ip rest (omega arith) m hi t hn)

-- A reply, with six-byte MACs and 32-bit addresses, whatever follows it in the buffer, is not
-- answered, and its sender is learnt.
pub arp_handle-reply :
    (h : Host) (mac : List ℕ) (ip : ℕ) (tmac : List ℕ) (tip : ℕ) (rest : List ℕ)
    → IsMac mac
    → IsMac tmac
    → ip < 2 ^ 32
    → tip < 2 ^ 32
    → arp_handle h (arp_packet arp_op_reply mac ip tmac tip ++ rest)
      ≡ record h { arp_cache = learn ip mac h.arp_cache }
unfolding arp_handle answer_request
arp_handle-reply h mac ip tmac tip rest m t hi ht =
    ground (arith, arp_packet-Parsed 2 mac ip tmac tip rest (omega arith) m hi t ht)
