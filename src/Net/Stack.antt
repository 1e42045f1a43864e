-- ===== src/Net/Stack.antt =====
-- The stack tied together: `net_handle_packet` of kernel/net/net.c and the waiting loops of
-- `ip_send` of kernel/net/ip.c, which call each other while an address is resolved.
pub mod Terminates
pub mod Deliver
mod Tests
use gecko_os_mac_compatabili.Common.{
  ℕ, zero, suc, ◌+◌, ◌-◌, Bool, true, false, not, List, [], ◌∷◌, Option, none, some, ltb, ◌==◌,
  ◌&&◌, ◌||◌, if◌then◌else◌, drop, length,
}
use gecko_os_mac_compatabili.Net.Bytes.{byte_at, from_be16}
use gecko_os_mac_compatabili.Net.Host.{
  Host, Rx, packet, quiet, Outcome, ok, overflow, out_of_fuel, ◌>>=◌, IpSend,
}
use gecko_os_mac_compatabili.Net.Frame.{ether_type_arp, ether_type_ipv4}
use gecko_os_mac_compatabili.Net.Arp.{arp_handle, arp_request, arp_resolve}
use gecko_os_mac_compatabili.Net.Ip.{ip_handle, fill_tx_buf, next_hop, send_tx_buf}

abbrev pub eth_header_size : ℕ
eth_header_size = 14

-- The loop of `net_handle_packet`, with `n` rounds left: each byte is this host's or 0xFF.
pub for_us : List ℕ → List ℕ → ℕ → ℕ → Bool
for_us frame mac zero i = true
for_us frame mac (suc n) i =
    (byte_at frame i == byte_at mac i || byte_at frame i == 0xFF) && for_us frame mac n (suc i)

pub net_handle_packet : IpSend → Host → List ℕ → ℕ → Outcome Host
net_handle_packet ip_send h frame len =
    if ltb len eth_header_size
    then ok h
    else if not (for_us frame h.net_mac 6 0)
    then ok h
    else if from_be16 frame 12 == ether_type_arp
    then ok (arp_handle h (drop 14 frame))
    else if from_be16 frame 12 == ether_type_ipv4
    then ip_handle ip_send h (drop 14 frame)
    else ok h

abbrev pub Handle : Type 0
Handle = Host → List ℕ → ℕ → Outcome Host

-- `e1000_receive`: the next frame, and what comes after it.
pub e1000_receive : List Rx → Option (List ℕ × ℕ × List Rx)
e1000_receive (packet frame len ∷ rx) = some (frame, len, rx)
e1000_receive _ = none

-- `timer_wait(1)`
abbrev pub after_quiet : Host → List Rx → Host
after_quiet h (quiet more ∷ rx) = record h { tick = h.tick + 1 + more; rx = rx }
after_quiet h _ = record h { tick = h.tick + 1 }

pub timer_wait : Host → Host
timer_wait h = after_quiet h h.rx

-- `while (e1000_receive(rx_buf, &rx_len) == 0) net_handle_packet(rx_buf, rx_len)`
pub drain : Handle → ℕ → Host → Outcome Host
drain handle zero h = out_of_fuel
drain handle (suc f) h = elim (e1000_receive h.rx) [
  | none ↦ ok h
  | some (frame, len, rx) ↦ handle (record h { rx = rx }) frame len >>= drain handle f
]

-- `while (get_tick() - start < 20)`: true if the packet was sent.
pub wait : Handle → ℕ → ℕ → ℕ → ℕ → Host → Outcome (Bool × Host)
wait handle zero start hop payload_len h = out_of_fuel
wait handle (suc f) start hop payload_len h = elim (ltb (h.tick - start) 20) [
  | false ↦ ok (false, h)
  | true ↦ drain handle f h >>= λ h'. elim (arp_resolve h' hop) [
    | some mac ↦ ok (true, send_tx_buf h' mac payload_len)
    | none ↦ wait handle f start hop payload_len (timer_wait h')
  ]
]

-- The loop over the attempts, with `k` attempts left.
pub attempts : Handle → ℕ → ℕ → ℕ → ℕ → Host → Outcome Host
attempts handle f zero hop payload_len h = ok h
attempts handle f (suc k) hop payload_len h = elim (arp_resolve h hop) [
  | some mac ↦ ok (send_tx_buf h mac payload_len)
  | none ↦ wait handle f (arp_request h hop).tick hop payload_len (arp_request h hop) >>= λ r.
      elim r.0 [ true ↦ ok r.1 | false ↦ attempts handle f k hop payload_len r.1 ]
]

-- The fuel bounds the depth of calls and the rounds of each loop.
pub ip_send : ℕ → IpSend
ip_send zero h dst_ip protocol payload = out_of_fuel
ip_send (suc f) h dst_ip protocol payload =
    fill_tx_buf h dst_ip protocol payload
    >>= attempts (net_handle_packet (ip_send f)) f 3 (next_hop h dst_ip) (length payload)
