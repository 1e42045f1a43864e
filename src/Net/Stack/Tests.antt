-- ===== src/Net/Stack/Tests.antt =====
-- Two hosts of one network, and the packets they exchange.
use gecko_os_mac_compatabili.Common.{
  ℕ, ◌≡◌, ◌≢◌, inl, refl, true, false, List, [], ◌∷◌, ◌++◌, some, ◌==◌, if◌then◌else◌, arith,
  length, replicate,
}
use gecko_os_mac_compatabili.Net.Bytes.{be16}
use gecko_os_mac_compatabili.Net.Host.{
  Host, extern, packet, quiet, ok, overflow, out_of_fuel, IpSend,
}
use gecko_os_mac_compatabili.Net.Frame.{net_send_frame, ether_type_arp}
use gecko_os_mac_compatabili.Net.Checksum.{fold, fold_rounds, udp_checksum}
use gecko_os_mac_compatabili.Net.Checksum.Fold.{ones, fold-ones}
use gecko_os_mac_compatabili.Net.Checksum.Verify.{udp_checksum-field}
use gecko_os_mac_compatabili.Net.Arp.{
  arp_packet, arp_handle, arp_resolve, find_mac, learn, arp_op_request, arp_op_reply,
}
use gecko_os_mac_compatabili.Net.Arp.Cache.{Learnt, learn_lem}
use gecko_os_mac_compatabili.Net.Arp.Resolve.{IsMac, arp_handle-request}
use gecko_os_mac_compatabili.Net.Udp.{
  done, udp_send, udp_packet, call_handler, find_handler, ip_proto_udp,
}
use gecko_os_mac_compatabili.Net.Icmp.{icmp_message, icmp_handle, echo_request}
use gecko_os_mac_compatabili.Net.Icmp.Echo.{icmp_handle-echo_request, icmp_handle-overflow}
use gecko_os_mac_compatabili.Net.Ip.{ip_header, next_hop}
use gecko_os_mac_compatabili.Net.Checksum.{ip_checksum}
use gecko_os_mac_compatabili.Net.Ip.Header.{ip_checksum-ip_header}
use gecko_os_mac_compatabili.Net.Stack.{ip_send, net_handle_packet}
use gecko_os_mac_compatabili.Net.Stack.Terminates.{ip_send-ne-out_of_fuel}
use gecko_os_mac_compatabili.Net.Stack.Deliver.{
  after_send, datagram_frame, udp_send-resolved, net_handle_packet-datagram,
}

abbrev mac_a : List ℕ
mac_a = 2 ∷ 0 ∷ 0 ∷ 0 ∷ 0 ∷ 1 ∷ []

abbrev mac_b : List ℕ
mac_b = 2 ∷ 0 ∷ 0 ∷ 0 ∷ 0 ∷ 2 ∷ []

-- 10.0.2.15, which knows the MAC of 10.0.2.16.
abbrev a : Host
a = record {
  net_ip = 0x0A00020F;
  net_gateway = 0x0A000202;
  net_subnet = 0xFFFFFF00;
  net_mac = mac_a;
  arp_cache =
      record { ip = 0x0A000210; mac = mac_b; valid = true }
      ∷ record { ip = 0; mac = mac_a; valid = false }
      ∷ [];
  bindings = record { port = 7; handler = extern 1 } ∷ [];
  reply_ready = false;
  reply_src_ip = 0;
  reply_src_port = 0;
  reply_len = 0;
  reply_buf = replicate 1472 0;
  reply_listen_port = 0;
  echo_received = false;
  ip_tx_buf = replicate 1514 0;
  sent = [];
  delivered = [];
  tick = 0;
  rx = packet (1 ∷ 2 ∷ []) 2 ∷ quiet 3 ∷ packet (1 ∷ 2 ∷ []) 60 ∷ [];
}

abbrev b : Host
b = record a { net_ip = 0x0A000210; net_mac = mac_b; arp_cache = [] }

abbrev payload : List ℕ
payload = 1 ∷ 2 ∷ 3 ∷ []

mac_a-IsMac : IsMac mac_a
mac_a-IsMac = (2, 0, 0, 0, 0, 1, refl)

mac_b-IsMac : IsMac mac_b
mac_b-IsMac = (2, 0, 0, 0, 0, 2, refl)

abbrev drop_all : IpSend
drop_all h dst protocol data_bytes = ok h

fold-ones_example : fold fold_rounds 0xFFFFFFFF ≡ 0xFFFF
unfolding ones
fold-ones_example = fold-ones 0xFFFFFFFF (omega arith)

udp_checksum-field_example :
    udp_checksum 1 2 (
      be16 7
      ++ be16 9
      ++ be16 11
      ++ be16 (
          if udp_checksum 1 2 (be16 7 ++ be16 9 ++ be16 11 ++ 0 ∷ 0 ∷ payload) == 0
          then 0xFFFF
          else udp_checksum 1 2 (be16 7 ++ be16 9 ++ be16 11 ++ 0 ∷ 0 ∷ payload))
      ++ payload)
    ≡ 0
udp_checksum-field_example =
    udp_checksum-field 1 2 7 9 11 payload
      (udp_checksum 1 2 (be16 7 ++ be16 9 ++ be16 11 ++ 0 ∷ 0 ∷ payload)) (omega arith)
      (omega arith) refl

learn_lem_example : Learnt 0x0A000203 mac_b a.arp_cache (learn 0x0A000203 mac_b a.arp_cache)
learn_lem_example = learn_lem 0x0A000203 mac_b a.arp_cache

arp_handle-request_example :
    arp_handle b (arp_packet arp_op_request mac_a 0x0A00020F mac_a 0x0A000210 ++ 0 ∷ [])
    ≡ record (net_send_frame b mac_a ether_type_arp
        (arp_packet arp_op_reply mac_b 0x0A000210 mac_a 0x0A00020F)) {
          arp_cache = learn 0x0A00020F mac_a [];
        }
arp_handle-request_example =
    arp_handle-request b mac_a 0x0A00020F mac_a (0 ∷ []) mac_a-IsMac mac_a-IsMac (omega arith)
      (omega arith)

icmp_handle-echo_request_example :
    icmp_handle drop_all a 0x0A000210
      (icmp_message echo_request (0 ∷ 1 ∷ 0 ∷ 2 ∷ payload) ++ 9 ∷ [])
      11
    ≡ ok a
icmp_handle-echo_request_example =
    icmp_handle-echo_request drop_all a 0x0A000210 (0 ∷ 1 ∷ 0 ∷ 2 ∷ payload) (9 ∷ []) (omega arith)
      (omega arith)

icmp_handle-overflow_example : icmp_handle drop_all a 0x0A000210 (8 ∷ 0 ∷ []) 2 ≡ overflow
icmp_handle-overflow_example =
    icmp_handle-overflow drop_all a 0x0A000210 (8 ∷ 0 ∷ []) 2 refl (omega arith) (inl (omega arith))

ip_checksum-ip_header_example : ip_checksum (ip_header 0x0A00020F 0x0A000210 17 11) ≡ 0
ip_checksum-ip_header_example = ip_checksum-ip_header 0x0A00020F 0x0A000210 17 11

-- A host that does not know the MAC, with two frames to come.
ip_send-ne-out_of_fuel_example : ip_send 24 a 0x0A000203 17 payload ≢ out_of_fuel
ip_send-ne-out_of_fuel_example = ip_send-ne-out_of_fuel 24 a 0x0A000203 17 payload (omega arith)

known : arp_resolve a (next_hop a 0x0A000210) ≡ some mac_b
unfolding arp_resolve find_mac next_hop
known = refl

udp_send-resolved_example :
    udp_send (ip_send 1) a 0x0A000210 5 7 payload
    ≡ ok (
      done,
      after_send a mac_b 0x0A000210 ip_proto_udp (udp_packet 0x0A00020F 0x0A000210 5 7 payload),
    )
udp_send-resolved_example =
    udp_send-resolved a b 5 7 payload (omega arith) (omega arith) (omega arith) (omega arith)
      (omega arith) (omega arith) mac_a-IsMac mac_b-IsMac 0 known refl

net_handle_packet-datagram_example :
    net_handle_packet
      (ip_send 0)
      b
      (datagram_frame a b 5 7 payload ++ 9 ∷ [])
      (length (datagram_frame a b 5 7 payload))
    ≡ ok (call_handler (find_handler 7 b.bindings) b 0x0A00020F 5 (1 ∷ 2 ∷ 3 ∷ 9 ∷ []) 3)
net_handle_packet-datagram_example =
    net_handle_packet-datagram a b 5 7 payload (omega arith) (omega arith) (omega arith)
      (omega arith) (omega arith) (omega arith) mac_a-IsMac mac_b-IsMac (ip_send 0) (9 ∷ [])
