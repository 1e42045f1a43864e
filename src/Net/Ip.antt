-- ===== src/Net/Ip.antt =====
-- kernel/net/ip.c: the IPv4 header, and what `ip_handle` does with a packet.
pub mod Header
use gecko_os_mac_compatabili.Common.{
  ℕ, ◌+◌, ◌-◌, ◌*◌, ◌/◌, ◌%◌, ◌^◌, List, [], ◌∷◌, ◌++◌, ltb, ◌==◌, not, if◌then◌else◌, drop, length,
  bit_and,
}
use gecko_os_mac_compatabili.Net.Bytes.{be16, be32, read, byte_at, from_be16, from_be32, write_at}
use gecko_os_mac_compatabili.Net.Host.{Host, Outcome, ok, overflow, IpSend}
use gecko_os_mac_compatabili.Net.Frame.{net_send_frame, ether_type_ipv4}
use gecko_os_mac_compatabili.Net.Checksum.{ip_checksum}
use gecko_os_mac_compatabili.Net.Icmp.{icmp_handle, ip_proto_icmp, le16}
use gecko_os_mac_compatabili.Net.Udp.{udp_handle, ip_proto_udp}

abbrev pub ip_header_size : ℕ
ip_header_size = 20

-- The size of the static `tx_buf`.
abbrev pub tx_buf_size : ℕ
tx_buf_size = 1514

-- Version 4, 5 words, no options, identification 0, IP_DF, time to live 64.
pub ip_header_start : ℕ → ℕ → List ℕ
ip_header_start payload_len protocol =
    0x45 ∷ 0 ∷ be16 (ip_header_size + payload_len)
    ++ be16 0
    ++ be16 0x4000
    ++ 64 ∷ (protocol % 256) ∷ []

-- `header` is the header with its checksum 0; the checksum is stored low byte first.
pub ip_header : ℕ → ℕ → ℕ → ℕ → List ℕ
unfolding ip_header_start
ip_header src_ip dst_ip protocol payload_len =
    let start = ip_header_start payload_len protocol in
    let addresses = be32 src_ip ++ be32 dst_ip in
    start ++ le16 (ip_checksum (start ++ 0 ∷ 0 ∷ addresses)) ++ addresses

abbrev pub ip_packet : ℕ → ℕ → ℕ → List ℕ → List ℕ
ip_packet src_ip dst_ip protocol payload =
    ip_header src_ip dst_ip protocol (length payload) ++ payload

-- The first part of `ip_send`: the packet is written to `tx_buf`, with no check of its size.
pub fill_tx_buf : Host → ℕ → ℕ → List ℕ → Outcome Host
fill_tx_buf h dst_ip protocol payload =
    if ltb tx_buf_size (ip_header_size + length payload)
    then overflow
    else ok (record h {
      ip_tx_buf = write_at h.ip_tx_buf 0 (ip_packet h.net_ip dst_ip protocol payload);
    })

unfoldable pub next_hop : Host → ℕ → ℕ
next_hop h dst_ip =
    if bit_and dst_ip h.net_subnet == bit_and h.net_ip h.net_subnet then dst_ip else h.net_gateway

-- `net_send_frame(dst_mac, ETHER_TYPE_IPV4, tx_buf, sizeof(ip_header_t) + payload_len)`
abbrev pub send_tx_buf : Host → List ℕ → ℕ → Host
send_tx_buf h dst_mac payload_len =
    net_send_frame h dst_mac ether_type_ipv4 (read (ip_header_size + payload_len) h.ip_tx_buf)

-- The payload is taken to start after 20 bytes, and its length is a `uint16_t`.
pub ip_handle : IpSend → Host → List ℕ → Outcome Host
ip_handle ip_send h ip =
    let dst_ip = from_be32 ip 16 in
    let src_ip = from_be32 ip 12 in
    let payload_len = (from_be16 ip 2 + 2 ^ 16 - byte_at ip 0 % 16 * 4) % 2 ^ 16 in
    if not (byte_at ip 0 / 16 == 4)
    then ok h
    else if not (dst_ip == h.net_ip)
    then ok h
    else if byte_at ip 9 == ip_proto_icmp
    then icmp_handle ip_send h src_ip (drop 20 ip) payload_len
    else if byte_at ip 9 == ip_proto_udp
    then ok (udp_handle h src_ip dst_ip (drop 20 ip) payload_len)
    else ok h
