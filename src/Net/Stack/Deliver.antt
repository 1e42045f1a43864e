-- ===== src/Net/Stack/Deliver.antt =====
-- From `udp_send` on one host to the bound handler on another.
use gecko_os_mac_compatabili.Common.{
  ℕ, suc, ◌+◌, ◌^◌, ◌≤◌, ◌<◌, ◌≡◌, refl, ap, ◌∙◌, sym, true, false, List, [], ◌∷◌, ◌++◌, some, ltb,
  arith, length, drop,
}
use gecko_os_mac_compatabili.Net.Bytes.{read, read-write_at, write_at, from_be16, IsBytes}
use gecko_os_mac_compatabili.Net.Host.{Host, Outcome, ok, ◌>>=◌, IpSend}
use gecko_os_mac_compatabili.Net.Frame.{frame_bytes, ether_type_ipv4}
use gecko_os_mac_compatabili.Net.Arp.{arp_resolve}
use gecko_os_mac_compatabili.Net.Arp.Resolve.{IsMac}
use gecko_os_mac_compatabili.Net.Arp.Cache.{arp_resolve-cache}
use gecko_os_mac_compatabili.Net.Ip.{ip_packet, next_hop, ip_handle, tx_buf_size}
use gecko_os_mac_compatabili.Net.Ip.Header.{ip_handle-udp, fill_tx_buf-fits, length-ip_packet}
use gecko_os_mac_compatabili.Net.Udp.{
  done, udp_send, udp_packet, call_handler, find_handler, max_payload, ip_proto_udp,
}
use gecko_os_mac_compatabili.Net.Udp.Datagram.{
  udp_handle-udp_packet, length-udp_packet, udp_send-fits,
}
use gecko_os_mac_compatabili.Net.Stack.{for_us, net_handle_packet, attempts, ip_send}

-- The state after one IPv4 packet was sent to a known MAC.
abbrev pub after_send : Host → List ℕ → ℕ → ℕ → List ℕ → Host
after_send h mac dst protocol payload = record h {
  ip_tx_buf = write_at h.ip_tx_buf 0 (ip_packet h.net_ip dst protocol payload);
  sent =
      h.sent
      ++ (frame_bytes mac h.net_mac ether_type_ipv4 (ip_packet h.net_ip dst protocol payload) ∷ []);
}

-- With the MAC of the next hop in the cache, a transmit buffer of 1514 bytes and a packet that
-- fits it, `ip_send` sends exactly one frame, to that MAC, with the header and the payload; it
-- does not wait.
pub ip_send-resolved :
    (f : ℕ) (h : Host) (dst protocol : ℕ) (payload mac : List ℕ)
    → arp_resolve h (next_hop h dst) ≡ some mac
    → length h.ip_tx_buf ≡ tx_buf_size
    → 20 + length payload ≤ tx_buf_size
    → ip_send (suc f) h dst protocol payload ≡ ok (after_send h mac dst protocol payload)
unfolding ip_send attempts
ip_send-resolved f h dst protocol payload mac known size fits =
    let packet : List ℕ = ip_packet h.net_ip dst protocol payload in
    let filled : Host = record h { ip_tx_buf = write_at h.ip_tx_buf 0 packet } in
    let same : arp_resolve filled (next_hop h dst) ≡ some mac =
      arp_resolve-cache filled h (next_hop h dst) refl ∙ known in
    let whole : read (20 + length payload) (write_at h.ip_tx_buf 0 packet) ≡ packet =
      ap (λ (n : ℕ). read n (write_at h.ip_tx_buf 0 packet))
        (sym (length-ip_packet h.net_ip dst protocol payload))
      ∙ read-write_at packet h.ip_tx_buf
          (omega (arith, length-ip_packet h.net_ip dst protocol payload)) in
    rw (fill_tx_buf-fits h dst protocol payload fits) (rw (same, attempts) (rw whole))

-- The fields of a frame to `dst`, whatever follows it in the buffer.
record IsFrame (dst : List ℕ) (type : ℕ) (payload rest p : List ℕ) : Type 0 where
  addressed : for_us p dst 6 0 ≡ true
  ether_type : from_be16 p 12 ≡ type
  body : drop 14 p ≡ payload ++ rest

frame_bytes-IsFrame :
    (dst src : List ℕ) (type : ℕ) (payload rest : List ℕ)
    → IsMac dst
    → IsMac src
    → type < 2 ^ 16
    → IsFrame dst type payload rest (frame_bytes dst src type payload ++ rest)
unfolding for_us
frame_bytes-IsFrame dst src type payload rest (a, b, c, d, e, f, m) (i, j, k, l, o, p, n) h =
    rw (m, n) (record { addressed = ground arith; ether_type = omega arith; body = refl })

-- A frame with this host's MAC and type IPv4 reaches `ip_handle`.
net_handle_packet-ipv4 :
    (send : IpSend) (h : Host) (src payload rest : List ℕ) (len : ℕ)
    → IsMac h.net_mac
    → IsMac src
    → 14 ≤ len
    → net_handle_packet send h (frame_bytes h.net_mac src ether_type_ipv4 payload ++ rest) len
      ≡ ip_handle send h (payload ++ rest)
unfolding net_handle_packet
net_handle_packet-ipv4 send h src payload rest len m n hl =
    let v = frame_bytes-IsFrame h.net_mac src ether_type_ipv4 payload rest m n (omega arith) in
    let long : ltb len 14 ≡ false = ground arith in rw (v.addressed, v.ether_type, v.body, long)

length-frame :
    (dst src : List ℕ) (type : ℕ) (payload : List ℕ)
    → IsMac dst
    → IsMac src
    → length (frame_bytes dst src type payload) ≡ 14 + length payload
length-frame dst src type payload (a, b, c, d, e, f, m) (i, j, k, l, o, p, n) =
    rw (m, n) (omega arith)

-- The frame that carries a datagram from `a` to `b`.
abbrev pub datagram_frame : Host → Host → ℕ → ℕ → List ℕ → List ℕ
datagram_frame a b sp dp payload =
    frame_bytes b.net_mac a.net_mac ether_type_ipv4
      (ip_packet a.net_ip b.net_ip ip_proto_udp (udp_packet a.net_ip b.net_ip sp dp payload))

module _ (a b : Host) (sp dp : ℕ) (payload : List ℕ) (bytes : IsBytes payload)
    (fits : length payload ≤ max_payload) (sp_fits : sp < 2 ^ 16) (dp_fits : dp < 2 ^ 16)
    (a_ip : a.net_ip < 2 ^ 32) (b_ip : b.net_ip < 2 ^ 32) (a_mac : IsMac a.net_mac)
    (b_mac : IsMac b.net_mac) where
  -- `udp_send` on host `a` that knows the MAC of host `b` as that of the next hop (a payload of
  -- at most 1472 bytes, a transmit buffer of 1514 bytes, fuel for one level of calls) returns 0
  -- and sends exactly one frame, the one that carries the datagram to that MAC.
  pub udp_send-resolved :
      (f : ℕ)
      → arp_resolve a (next_hop a b.net_ip) ≡ some b.net_mac
      → length a.ip_tx_buf ≡ tx_buf_size
      → udp_send (ip_send (suc f)) a b.net_ip sp dp payload
        ≡ ok (
          done,
          after_send a b.net_mac b.net_ip ip_proto_udp (udp_packet a.net_ip b.net_ip sp dp payload),
        )
  udp_send-resolved f known size =
      let datagram : List ℕ = udp_packet a.net_ip b.net_ip sp dp payload in
      udp_send-fits (ip_send (suc f)) a b.net_ip sp dp payload fits
      ∙ ap (λ (r : Outcome Host). r >>= λ sent. ok (done, sent))
          (ip_send-resolved f a b.net_ip ip_proto_udp datagram b.net_mac known size
            (omega (arith, length-udp_packet a.net_ip b.net_ip sp dp payload)))

  -- The frame that carries a datagram from host `a` to host `b` (six-byte MACs, 32-bit
  -- addresses, 16-bit ports, a payload of at most 1472 bytes), with any bytes after it in the
  -- buffer of the receiver: `net_handle_packet` on `b` calls the handler bound to the
  -- destination port with the sender's address, its port, the payload and its length, and
  -- changes nothing if no handler is bound.
  pub net_handle_packet-datagram :
      (send : IpSend) (rest : List ℕ)
      → net_handle_packet send b
          (datagram_frame a b sp dp payload ++ rest)
          (length (datagram_frame a b sp dp payload))
        ≡ ok (
            call_handler
              (find_handler dp b.bindings)
              b
              a.net_ip
              sp
              (payload ++ rest)
              (length payload))
  net_handle_packet-datagram send rest =
      let datagram : List ℕ = udp_packet a.net_ip b.net_ip sp dp payload in
      let size = length-udp_packet a.net_ip b.net_ip sp dp payload in
      let packet : List ℕ = ip_packet a.net_ip b.net_ip ip_proto_udp datagram in
      net_handle_packet-ipv4 send b a.net_mac packet rest _ b_mac a_mac
        (omega (arith, length-frame b.net_mac a.net_mac ether_type_ipv4 packet b_mac a_mac))
      ∙ ip_handle-udp send b a.net_ip datagram rest a_ip b_ip (omega (arith, size))
      ∙ ap ok (
          udp_handle-udp_packet a.net_ip b.net_ip sp dp payload rest bytes fits b (length datagram)
            sp_fits dp_fits (omega (arith, size)))
