-- ===== src/Net/Udp/Datagram.antt =====
-- A datagram that `udp_send` builds is accepted by `udp_handle` and reaches the port's handler.
use gecko_os_mac_compatabili.Common.{
  ℕ, ◌+◌, ◌-◌, ◌^◌, ◌≤◌, ◌<◌, ◌≡◌, refl, ap, ◌∙◌, false, List, ◌++◌, ltb, arith, length, drop,
}
use gecko_os_mac_compatabili.Net.Bytes.{read, from_be16, IsBytes, read-append}
use gecko_os_mac_compatabili.Net.Host.{
  Host, ok, ◌>>=◌, IpSend, Handler, no_handler, capture, extern,
}
use gecko_os_mac_compatabili.Net.Checksum.{udp_checksum}
use gecko_os_mac_compatabili.Net.Checksum.Verify.{udp_checksum-field}
use gecko_os_mac_compatabili.Net.Udp.{
  max_payload, udp_header_size, udp_packet, udp_handle, rejects, call_handler, find_handler,
  udp_send, ip_proto_udp, done,
}

module _ (src dst sp dp : ℕ) (payload rest : List ℕ) (bytes : IsBytes payload)
    (fits : length payload ≤ max_payload) where
  udp_len : from_be16 (udp_packet src dst sp dp payload ++ rest) 4 ≡ 8 + length payload
  unfolding udp_packet
  udp_len = omega arith

  valid : udp_checksum src dst (udp_packet src dst sp dp payload) ≡ 0
  unfolding udp_packet
  valid = udp_checksum-field src dst sp dp (8 + length payload) payload _ bytes (omega arith) refl

  whole :
      read (8 + length payload) (udp_packet src dst sp dp payload ++ rest)
      ≡ udp_packet src dst sp dp payload
  unfolding udp_packet
  whole =
      ap (λ (n : ℕ). read n (udp_packet src dst sp dp payload ++ rest))
        {y = length (udp_packet src dst sp dp payload)} (omega arith)
      ∙ read-append (udp_packet src dst sp dp payload) rest

  not-rejects :
      (packet_len : ℕ)
      → 8 + length payload ≤ packet_len
      → rejects src dst (udp_packet src dst sp dp payload ++ rest) packet_len ≡ false
  unfolding rejects
  not-rejects packet_len h = rw (udp_len, whole, valid) (ground arith)

  ports :
      sp < 2 ^ 16
      → dp < 2 ^ 16
      → (from_be16 (udp_packet src dst sp dp payload ++ rest) 0 ≡ sp)
        × (from_be16 (udp_packet src dst sp dp payload ++ rest) 2 ≡ dp)
  unfolding udp_packet
  ports hs hd = (omega arith, omega arith)

  body : drop 8 (udp_packet src dst sp dp payload ++ rest) ≡ payload ++ rest
  unfolding udp_packet
  body = refl

  -- A datagram with a payload of at most 1472 bytes and 16-bit ports, as `udp_send` fills it,
  -- whatever follows it in the receiver's buffer: `udp_handle` accepts it and calls the handler
  -- bound to the destination port with the sender's address, port and payload; with no handler
  -- it changes nothing.
  pub udp_handle-udp_packet :
      (h : Host) (packet_len : ℕ)
      → sp < 2 ^ 16
      → dp < 2 ^ 16
      → 8 + length payload ≤ packet_len
      → udp_handle h src dst (udp_packet src dst sp dp payload ++ rest) packet_len
        ≡ call_handler (find_handler dp h.bindings) h src sp (payload ++ rest) (length payload)
  unfolding udp_handle
  udp_handle-udp_packet h packet_len hs hd hl =
      let size : 8 + length payload - 8 ≡ length payload = omega arith in
      rw (not-rejects packet_len hl, (ports hs hd).0, (ports hs hd).1, body, udp_len, size)

pub length-udp_packet :
    (src dst sp dp : ℕ) (payload : List ℕ)
    → length (udp_packet src dst sp dp payload) ≡ 8 + length payload
unfolding udp_packet
length-udp_packet src dst sp dp payload = omega arith

-- A payload that fits is passed to `ip_send`.
pub udp_send-fits :
    (ip_send : IpSend) (h : Host) (dst sp dp : ℕ) (payload : List ℕ)
    → length payload ≤ max_payload
    → udp_send ip_send h dst sp dp payload ≡ (
        ip_send h dst ip_proto_udp (udp_packet h.net_ip dst sp dp payload) >>= λ sent.
        ok (done, sent))
unfolding udp_send
udp_send-fits ip_send h dst sp dp payload l =
    let small : ltb max_payload (length payload) ≡ false = ground arith in rw small

call_handler_keeps :
    (f : Handler) (h : Host) (src sp : ℕ) (p : List ℕ) (n : ℕ)
    → ((call_handler f h src sp p n).rx ≡ h.rx) × ((call_handler f h src sp p n).tick ≡ h.tick)
unfolding call_handler
call_handler_keeps no_handler h src sp p n = (refl, refl)
call_handler_keeps capture h src sp p n = (refl, refl)
call_handler_keeps (extern a) h src sp p n = (refl, refl)

-- UDP does not touch the frames to come and the clock.
pub udp_handle_keeps :
    (h : Host) (src dst : ℕ) (p : List ℕ) (n : ℕ)
    → ((udp_handle h src dst p n).rx ≡ h.rx) × ((udp_handle h src dst p n).tick ≡ h.tick)
unfolding udp_handle
udp_handle_keeps h src dst p n = ground (
  arith,
  call_handler_keeps (find_handler (from_be16 p 2) h.bindings) h src (from_be16 p 0) (drop 8 p)
      (from_be16 p 4 - udp_header_size),
)
