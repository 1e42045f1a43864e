-- ===== src/Net/Icmp/Echo.antt =====
-- An echo request is answered with the same identifier, sequence and payload.
use gecko_os_mac_compatabili.Common.{
  ℕ, ◌+◌, ◌-◌, ◌/◌, ◌%◌, ◌^◌, ◌≤◌, ◌<◌, ◌≡◌, ◌⊎◌, inl, inr, refl, ap, ◌∙◌, false, List, ◌∷◌, ◌++◌,
  ltb, ◌==◌, arith, length, Bool-cases,
}
use gecko_os_mac_compatabili.Net.Bytes.{byte_at, read-append, IsBytes}
use gecko_os_mac_compatabili.Net.Host.{Host, Outcome, ok, overflow, IpSend}
use gecko_os_mac_compatabili.Net.Checksum.{icmp_checksum, complement}
use gecko_os_mac_compatabili.Net.Checksum.Fold.{ones, total_le}
use gecko_os_mac_compatabili.Net.Checksum.Verify.{icmp_checksum-total, ones_cancel_zero}
use gecko_os_mac_compatabili.Net.Icmp.{
  icmp_message, icmp_handle, echo_request, echo_reply, ip_proto_icmp, le16, reply_buf_size,
}

byte : (v : ℕ) → v % 256 < 256
byte v = omega arith

with_checksum-total :
    (type c : ℕ) (body : List ℕ)
    → c < 2 ^ 16
    → total_le (type ∷ 0 ∷ le16 c ++ body) ≡ total_le (type ∷ 0 ∷ 0 ∷ 0 ∷ body) + c
unfolding total_le
with_checksum-total type c body h = omega arith

with_checksum-positive :
    (type : ℕ) (body : List ℕ) → 0 < type → 0 < total_le (type ∷ 0 ∷ 0 ∷ 0 ∷ body)
unfolding total_le
with_checksum-positive type body h = omega arith

-- The checksum over an ICMP message of fewer than 2^16 bytes with a type from 1 to 255, its
-- checksum field filled in as the source does, is 0.
icmp_checksum-icmp_message :
    (type : ℕ) (body : List ℕ)
    → 0 < type
    → type < 256
    → IsBytes body
    → length body + 4 < 2 ^ 16
    → icmp_checksum (icmp_message type body) ≡ 0
unfolding icmp_message
icmp_checksum-icmp_message type body pos ht hb l =
    let empty : List ℕ = type ∷ 0 ∷ 0 ∷ 0 ∷ body in
    let c : ℕ = icmp_checksum empty in
    let value : c ≡ complement (ones (total_le empty)) =
      icmp_checksum-total empty (ht, (omega arith, (omega arith, (omega arith, hb))))
        (omega arith) in
    icmp_checksum-total (type ∷ 0 ∷ le16 c ++ body)
      (ht, (omega arith, (byte c, (byte (c / 256), hb)))) (omega arith)
    ∙ ap (λ (t : ℕ). complement (ones t))
        (with_checksum-total type c body (omega (arith, value))
          ∙ ap (λ (t : ℕ). total_le empty + t) value)
    ∙ ones_cancel_zero (total_le empty) (with_checksum-positive type body pos)

-- An echo request with its identifier, its sequence number and up to 1016 bytes of payload,
-- whatever follows it in the buffer: the message that is given to `ip_send` goes back to its
-- source, has the type of a reply and the same identifier, sequence number and payload.
pub icmp_handle-echo_request :
    (send : IpSend) (h : Host) (src : ℕ) (body rest : List ℕ)
    → 4 ≤ length body
    → length body + 4 ≤ reply_buf_size
    → icmp_handle send h src (icmp_message echo_request body ++ rest) (length body + 4)
      ≡ send h src ip_proto_icmp (icmp_message echo_reply body)
unfolding icmp_handle icmp_message
icmp_handle-echo_request send h src body rest lo hi =
    let n : (length body + 4 + 2 ^ 16 - 8) % 2 ^ 16 ≡ length body - 4 = omega arith in
    let small : ltb reply_buf_size (8 + (length body - 4)) ≡ false = ground arith in
    let all : 4 + (length body - 4) ≡ length body = omega arith in
    rw (n, small, all, read-append body rest)

-- An echo request whose 16-bit length is below that of its header, or above 1024 bytes, makes
-- the handler write past the end of its reply buffer.
pub icmp_handle-overflow :
    (send : IpSend) (h : Host) (src : ℕ) (icmp : List ℕ) (len : ℕ)
    → byte_at icmp 0 ≡ echo_request
    → len < 2 ^ 16
    → (len < 8) ⊎ (reply_buf_size < len)
    → icmp_handle send h src icmp len ≡ overflow
unfolding icmp_handle
icmp_handle-overflow send h src icmp len e l bad = ground arith

-- The handler ends in `ip_send`, in an overflow, or in this host with at most a flag changed.
abbrev pub Answered : IpSend → Host → Outcome Host → Type 0
Answered send h r =
    ((g : Host) × (r ≡ ok g) × (g.rx ≡ h.rx) × (g.tick ≡ h.tick))
    ⊎ ((r ≡ overflow)
        ⊎ ((dst protocol : ℕ) × (payload : List ℕ) × (r ≡ send h dst protocol payload)))

pub icmp_handle_cases :
    (send : IpSend) (h : Host) (src : ℕ) (icmp : List ℕ) (len : ℕ)
    → Answered send h (icmp_handle send h src icmp len)
unfolding icmp_handle
icmp_handle_cases send h src icmp len = elim (Bool-cases (byte_at icmp 0 == echo_request)) [
  | inl request ↦ elim (Bool-cases (ltb reply_buf_size (8 + (len + 2 ^ 16 - 8) % 2 ^ 16))) [
    | inl long ↦ rw (request, long) (inr (inl refl))
    | inr short ↦ rw (request, short) (inr (inr (_, _, _, refl)))
  ]
  | inr other ↦ elim (Bool-cases (byte_at icmp 0 == echo_reply)) [
    | inl reply ↦ rw (other, reply) (inl (_, refl, refl, refl))
    | inr odd ↦ rw (other, odd) (inl (_, refl, refl, refl))
  ]
]
