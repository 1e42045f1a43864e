-- ===== src/Net/Ip/Header.antt =====
-- The header that `ip_send` writes: its checksum validates, and `ip_handle` reads it back.
use gecko_os_mac_compatabili.Common.{
  ℕ, ◌+◌, ◌-◌, ◌*◌, ◌/◌, ◌%◌, ◌^◌, ◌≤◌, ◌<◌, ◌≡◌, ◌⊎◌, refl, ap, ◌∙◌, List, ◌++◌, ltb, ◌==◌, arith,
  length, drop, Bool-cases, inl, inr,
}
use gecko_os_mac_compatabili.Net.Bytes.{be32, byte_at, from_be16, from_be32, IsBytes, write_at}
use gecko_os_mac_compatabili.Net.Host.{Host, ok, overflow, IpSend}
use gecko_os_mac_compatabili.Net.Checksum.{ip_checksum, complement}
use gecko_os_mac_compatabili.Net.Checksum.Fold.{ones, total_le}
use gecko_os_mac_compatabili.Net.Checksum.Verify.{ip_checksum-total, ones_cancel_zero}
use gecko_os_mac_compatabili.Net.Icmp.Echo.{Answered, icmp_handle_cases}
use gecko_os_mac_compatabili.Net.Udp.Datagram.{udp_handle_keeps}
use gecko_os_mac_compatabili.Net.Icmp.{icmp_handle, ip_proto_icmp, le16}
use gecko_os_mac_compatabili.Net.Udp.{udp_handle, ip_proto_udp}
use gecko_os_mac_compatabili.Net.Ip.{
  ip_header_start, ip_header, ip_packet, ip_handle, ip_header_size, fill_tx_buf, tx_buf_size,
}

byte : (v : ℕ) → v % 256 < 256
byte v = omega arith

-- A header with `c` in its checksum field.
abbrev with_checksum : ℕ → ℕ → ℕ → ℕ → ℕ → List ℕ
with_checksum src dst protocol n c = ip_header_start n protocol ++ le16 c ++ be32 src ++ be32 dst

with_checksum-IsBytes : (src dst protocol n c : ℕ) → IsBytes (with_checksum src dst protocol n c)
unfolding ip_header_start
with_checksum-IsBytes src dst protocol n c = omega arith

with_checksum-total :
    (src dst protocol n c : ℕ)
    → c < 2 ^ 16
    → total_le (with_checksum src dst protocol n c)
      ≡ total_le (with_checksum src dst protocol n 0) + c
unfolding ip_header_start total_le
with_checksum-total src dst protocol n c h = omega arith

with_checksum-positive :
    (src dst protocol n : ℕ) → 0 < total_le (with_checksum src dst protocol n 0)
unfolding ip_header_start total_le
with_checksum-positive src dst protocol n = omega arith

with_checksum-length : (src dst protocol n c : ℕ) → length (with_checksum src dst protocol n c) ≡ 20
unfolding ip_header_start
with_checksum-length src dst protocol n c = refl

-- The checksum over a header that `ip_send` has written is 0, whatever its fields.
pub ip_checksum-ip_header :
    (src dst protocol n : ℕ) → ip_checksum (ip_header src dst protocol n) ≡ 0
unfolding ip_header
ip_checksum-ip_header src dst protocol n =
    let zero_field = with_checksum src dst protocol n 0 in
    let c : ℕ = ip_checksum zero_field in
    let value : c ≡ complement (ones (total_le zero_field)) =
      ip_checksum-total zero_field (with_checksum-IsBytes src dst protocol n 0)
        (omega (arith, with_checksum-length src dst protocol n 0)) in
    ip_checksum-total (with_checksum src dst protocol n c)
      (with_checksum-IsBytes src dst protocol n c)
      (omega (arith, with_checksum-length src dst protocol n c))
    ∙ ap (λ (t : ℕ). complement (ones t))
        (with_checksum-total src dst protocol n c (omega (arith, value))
          ∙ ap (λ (t : ℕ). total_le zero_field + t) value)
    ∙ ones_cancel_zero (total_le zero_field) (with_checksum-positive src dst protocol n)

-- The fields of a packet, whatever follows it in the buffer.
pub record IsPacket (src dst protocol : ℕ) (payload rest p : List ℕ) : Type 0 where
  pub version : byte_at p 0 / 16 ≡ 4
  pub length_field : (from_be16 p 2 + 2 ^ 16 - byte_at p 0 % 16 * 4) % 2 ^ 16 ≡ length payload
  pub protocol_field : byte_at p 9 ≡ protocol
  pub source : from_be32 p 12 ≡ src
  pub destination : from_be32 p 16 ≡ dst
  pub body : drop 20 p ≡ payload ++ rest

-- A packet of fewer than 2^16 bytes with 32-bit addresses and an 8-bit protocol, whatever
-- follows it in the buffer, reads back at the offsets that `ip_handle` uses: version 4, the
-- length of the payload, the protocol, both addresses, and the payload after 20 bytes.
ip_packet-IsPacket :
    (src dst protocol : ℕ) (payload rest : List ℕ)
    → src < 2 ^ 32
    → dst < 2 ^ 32
    → protocol < 256
    → length payload + 20 < 2 ^ 16
    → IsPacket src dst protocol payload rest (ip_packet src dst protocol payload ++ rest)
unfolding ip_header
ip_packet-IsPacket src dst protocol payload rest hs hd hp hl = record {
  version = refl;
  length_field = omega arith;
  protocol_field = omega arith;
  source = omega arith;
  destination = omega arith;
  body = refl;
}

module _ (send : IpSend) (h : Host) (src : ℕ) (payload rest : List ℕ) (hs : src < 2 ^ 32)
    (hd : h.net_ip < 2 ^ 32) (hl : length payload + 20 < 2 ^ 16) where
  -- A UDP packet of fewer than 2^16 bytes for this host's address reaches `udp_handle` with its
  -- source, its payload and the length of the payload, whatever follows it in the buffer.
  pub ip_handle-udp :
      ip_handle send h (ip_packet src h.net_ip ip_proto_udp payload ++ rest)
      ≡ ok (udp_handle h src h.net_ip (payload ++ rest) (length payload))
  unfolding ip_handle
  ip_handle-udp =
      let v = ip_packet-IsPacket src h.net_ip ip_proto_udp payload rest hs hd (omega arith) hl in
      rw (v.version, v.destination, v.protocol_field, v.source, v.body, v.length_field)
        (ground arith)

  -- An ICMP packet of fewer than 2^16 bytes for this host's address reaches `icmp_handle` with
  -- its source, its payload and the length of the payload, whatever follows it in the buffer.
  ip_handle-icmp :
      ip_handle send h (ip_packet src h.net_ip ip_proto_icmp payload ++ rest)
      ≡ icmp_handle send h src (payload ++ rest) (length payload)
  unfolding ip_handle
  ip_handle-icmp =
      let v = ip_packet-IsPacket src h.net_ip ip_proto_icmp payload rest hs hd (omega arith) hl in
      rw (v.version, v.destination, v.protocol_field, v.source, v.body, v.length_field)
        (ground arith)

pub fill_tx_buf-fits :
    (h : Host) (dst protocol : ℕ) (payload : List ℕ)
    → 20 + length payload ≤ tx_buf_size
    → fill_tx_buf h dst protocol payload
      ≡ ok (record h {
        ip_tx_buf = write_at h.ip_tx_buf 0 (ip_packet h.net_ip dst protocol payload);
      })
unfolding fill_tx_buf
fill_tx_buf-fits h dst protocol payload l = ground arith

-- The header has 20 bytes.
pub length-ip_packet :
    (src dst protocol : ℕ) (payload : List ℕ)
    → length (ip_packet src dst protocol payload) ≡ 20 + length payload
unfolding ip_header
length-ip_packet src dst protocol payload = omega arith

-- So does `ip_handle`.
pub ip_handle_cases :
    (send : IpSend) (h : Host) (ip : List ℕ) → Answered send h (ip_handle send h ip)
unfolding ip_handle
ip_handle_cases send h ip = elim (Bool-cases (byte_at ip 0 / 16 == 4)) [
  | inr version ↦ rw version (inl (_, refl, refl, refl))
  | inl version ↦ elim (Bool-cases (from_be32 ip 16 == h.net_ip)) [
    | inr dst ↦ rw (version, dst) (inl (_, refl, refl, refl))
    | inl dst ↦ elim (Bool-cases (byte_at ip 9 == ip_proto_icmp)) [
      | inl icmp ↦ rw (version, dst, icmp) (icmp_handle_cases send h _ _ _)
      | inr other ↦ elim (Bool-cases (byte_at ip 9 == ip_proto_udp)) [
        | inl udp ↦
            rw (version, dst, other, udp)
              (inl (_, refl, (udp_handle_keeps h _ _ _ _).0, (udp_handle_keeps h _ _ _ _).1))
        | inr odd ↦ rw (version, dst, other, odd) (inl (_, refl, refl, refl))
      ]
    ]
  ]
]

-- Writing the buffer does not touch the frames to come and the clock.
pub fill_tx_buf_cases :
    (h : Host) (dst protocol : ℕ) (payload : List ℕ)
    → (fill_tx_buf h dst protocol payload ≡ overflow)
      ⊎ ((g : Host) × (fill_tx_buf h dst protocol payload ≡ ok g)
          × (g.rx ≡ h.rx)
          × (g.tick ≡ h.tick))
unfolding fill_tx_buf
fill_tx_buf_cases h dst protocol payload =
    elim (Bool-cases (ltb tx_buf_size (ip_header_size + length payload))) [
      | inl long ↦ rw long (inl refl)
      | inr short ↦ rw short (inr (_, refl, refl, refl))
    ]
