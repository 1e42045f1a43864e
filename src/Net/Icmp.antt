-- ===== src/Net/Icmp.antt =====
-- kernel/net/icmp.c: echo requests and replies.
pub mod Echo
use gecko_os_mac_compatabili.Common.{
  ℕ, ◌+◌, ◌-◌, ◌%◌, ◌/◌, ◌^◌, Bool, true, false, List, [], ◌∷◌, ◌++◌, ltb, ◌==◌, if◌then◌else◌,
  drop, length,
}
use gecko_os_mac_compatabili.Net.Bytes.{be16, read, byte_at}
use gecko_os_mac_compatabili.Net.Host.{Host, Outcome, ok, overflow, IpSend}
use gecko_os_mac_compatabili.Net.Checksum.{icmp_checksum}

abbrev pub ip_proto_icmp : ℕ
ip_proto_icmp = 1

abbrev pub echo_request : ℕ
echo_request = 8

abbrev pub echo_reply : ℕ
echo_reply = 0

abbrev pub icmp_header_size : ℕ
icmp_header_size = 8

-- The size of the static `reply_buf`.
abbrev pub reply_buf_size : ℕ
reply_buf_size = 1024

-- A `uint16_t` as the processor stores it, the low byte first.
abbrev pub le16 : ℕ → List ℕ
le16 v = (v % 256) ∷ (v / 256 % 256) ∷ []

-- A message whose bytes from `identifier` on are `body`, with its checksum filled in.
pub icmp_message : ℕ → List ℕ → List ℕ
icmp_message type body = type ∷ 0 ∷ le16 (icmp_checksum (type ∷ 0 ∷ 0 ∷ 0 ∷ body)) ++ body

unfoldable pub icmp_got_reply : Host → Bool
icmp_got_reply h = h.echo_received

unfoldable pub icmp_clear_reply : Host → Host
icmp_clear_reply h = record h { echo_received = false }

-- `len - sizeof(icmp_header_t)` is a `uint16_t`. The reply is built in `reply_buf` with no check of
-- its size; a message that is longer is written outside the buffer.
pub icmp_handle : IpSend → Host → ℕ → List ℕ → ℕ → Outcome Host
icmp_handle ip_send h src_ip icmp len =
    let payload_len = (len + 2 ^ 16 - icmp_header_size) % 2 ^ 16 in
    if byte_at icmp 0 == echo_request
    then (if ltb reply_buf_size (icmp_header_size + payload_len)
        then overflow
        else ip_send h src_ip ip_proto_icmp
            (icmp_message echo_reply (read (4 + payload_len) (drop 4 icmp))))
    else if byte_at icmp 0 == echo_reply
    then ok (record h { echo_received = true })
    else ok h

-- "GeckoOS ping"
abbrev pub ping_text : List ℕ
ping_text = b'G' ∷ b'e' ∷ b'c' ∷ b'k' ∷ b'o' ∷ b'O' ∷ b'S' ∷ b' ' ∷ b'p' ∷ b'i' ∷ b'n' ∷ b'g' ∷ []

pub icmp_send_echo_request : IpSend → Host → ℕ → ℕ → ℕ → Outcome Host
icmp_send_echo_request ip_send h dst_ip id seq =
    ip_send h dst_ip ip_proto_icmp (icmp_message echo_request (be16 id ++ be16 seq ++ ping_text))
