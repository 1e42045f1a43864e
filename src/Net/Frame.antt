-- ===== src/Net/Frame.antt =====
-- kernel/net/net.c: `net_init` and `net_send_frame`. (`net_handle_packet` stands in Net/Stack.)
use gecko_os_mac_compatabili.Common.{ℕ, ◌+◌, ◌*◌, ◌^◌, List, [], ◌∷◌, ◌++◌}
use gecko_os_mac_compatabili.Net.Bytes.{be16}
use gecko_os_mac_compatabili.Net.Host.{Host}

abbrev pub ether_type_arp : ℕ
ether_type_arp = 0x0806

abbrev pub ether_type_ipv4 : ℕ
ether_type_ipv4 = 0x0800

-- `IP(a, b, c, d)` of numbers below 256.
abbrev pub ip_address : ℕ → ℕ → ℕ → ℕ → ℕ
ip_address a b c d = a * 2 ^ 24 + b * 2 ^ 16 + c * 256 + d

-- `mac` is what `e1000_get_mac` reads from the card.
unfoldable pub net_init : List ℕ → Host → Host
net_init mac h = record h {
  net_ip = ip_address 10 0 2 15;
  net_gateway = ip_address 10 0 2 2;
  net_subnet = ip_address 255 255 255 0;
  net_mac = mac;
}

-- The bytes that are given to `e1000_send`.
abbrev pub frame_bytes : List ℕ → List ℕ → ℕ → List ℕ → List ℕ
frame_bytes dst src ether_type payload = dst ++ src ++ be16 ether_type ++ payload

abbrev pub net_send_frame : Host → List ℕ → ℕ → List ℕ → Host
net_send_frame h dst_mac ether_type payload = record h {
  sent = h.sent ++ (frame_bytes dst_mac h.net_mac ether_type payload ∷ []);
}
