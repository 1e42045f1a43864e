-- ===== src/Net/Stack/Terminates.antt =====
-- With fuel for the frames that are still to come, `ip_send` ends: the calls between it and
-- `net_handle_packet` use up a frame each time, and the waiting loop lets the clock go on.
use gecko_os_mac_compatabili.Common.{
  ℕ, zero, suc, ◌+◌, ◌-◌, ◌≤◌, ◌<◌, ◌≡◌, ◌≢◌, ◌⊎◌, inl, inr, refl, ap, subst, Bool, true, false,
  List, [], ◌∷◌, none, some, ltb, ◌==◌, arith, length, drop, Bool-cases, Option-cases, ltb→lt,
}
use gecko_os_mac_compatabili.Net.Host.{
  Host, Rx, packet, quiet, Outcome, ok, overflow, out_of_fuel, ◌>>=◌, IpSend,
}
use gecko_os_mac_compatabili.Net.Arp.{arp_handle, arp_request, arp_resolve}
use gecko_os_mac_compatabili.Net.Arp.Cache.{arp_handle_keeps, arp_request_keeps}
use gecko_os_mac_compatabili.Net.Ip.{ip_handle, next_hop, send_tx_buf}
use gecko_os_mac_compatabili.Net.Bytes.{from_be16}
use gecko_os_mac_compatabili.Net.Frame.{ether_type_arp, ether_type_ipv4}
use gecko_os_mac_compatabili.Net.Icmp.Echo.{Answered}
use gecko_os_mac_compatabili.Net.Ip.Header.{ip_handle_cases, fill_tx_buf_cases}
use gecko_os_mac_compatabili.Net.Stack.{
  for_us, net_handle_packet, Handle, e1000_receive, timer_wait, after_quiet, drain, wait, attempts,
  ip_send,
}

-- The frames that are still to come.
abbrev pub packets : List Rx → ℕ
packets [] = 0
packets (packet frame len ∷ rx) = suc (packets rx)
packets (quiet more ∷ rx) = packets rx

-- The call ends, with no more frames to come than `n` and the clock at `t` or later.
abbrev pub Ends : ℕ → ℕ → Outcome Host → Type 0
Ends n t (ok h) = (packets h.rx ≤ n) × (t ≤ h.tick)
Ends n t overflow = Unit {0}
Ends n t out_of_fuel = ⊥

abbrev EndsWait : ℕ → ℕ → Outcome (Bool × Host) → Type 0
EndsWait n t (ok (b, h)) = (packets h.rx ≤ n) × (t ≤ h.tick)
EndsWait n t overflow = Unit {0}
EndsWait n t out_of_fuel = ⊥

Ends-mono : (n m t u : ℕ) (r : Outcome Host) → n ≤ m → t ≤ u → Ends n u r → Ends m t r
Ends-mono n m t u (ok h) p q e = (omega arith, omega arith)
Ends-mono n m t u overflow p q e = tt
Ends-mono n m t u out_of_fuel p q e = e

EndsWait-mono :
    (n m t u : ℕ) (r : Outcome (Bool × Host)) → n ≤ m → t ≤ u → EndsWait n u r → EndsWait m t r
EndsWait-mono n m t u (ok (b, h)) p q e = (omega arith, omega arith)
EndsWait-mono n m t u overflow p q e = tt
EndsWait-mono n m t u out_of_fuel p q e = e

-- A handler that ends on every state with fewer than `n` frames to come.
abbrev EndsBelow : ℕ → Handle → Type 0
EndsBelow n handle =
    (h : Host) (frame : List ℕ) (len : ℕ)
    → packets h.rx < n
    → Ends (packets h.rx) h.tick (handle h frame len)

Ends-same : (h g : Host) → g.rx ≡ h.rx → g.tick ≡ h.tick → Ends (packets h.rx) h.tick (ok g)
Ends-same h g r t = (omega (arith, ap packets r), omega (arith, t))

Answered-Ends :
    (send : IpSend) (h : Host) (r : Outcome Host)
    → ((dst protocol : ℕ) (payload : List ℕ)
        → Ends (packets h.rx) h.tick (send h dst protocol payload))
    → Answered send h r
    → Ends (packets h.rx) h.tick r
Answered-Ends send h r e (inl (g, same, rx, tick)) = rw same (Ends-same h g rx tick)
Answered-Ends send h r e (inr (inl long)) = rw long tt
Answered-Ends send h r e (inr (inr (dst, protocol, payload, sent))) =
    rw sent (e dst protocol payload)

net_handle_packet-Ends :
    (send : IpSend) (h : Host) (frame : List ℕ) (len : ℕ)
    → ((dst protocol : ℕ) (payload : List ℕ)
        → Ends (packets h.rx) h.tick (send h dst protocol payload))
    → Ends (packets h.rx) h.tick (net_handle_packet send h frame len)
unfolding net_handle_packet
net_handle_packet-Ends send h frame len e = elim (Bool-cases (ltb len 14)) [
  | inl short ↦ rw short (Ends-same h h refl refl)
  | inr long ↦ elim (Bool-cases (for_us frame h.net_mac 6 0)) [
    | inr other ↦ rw (long, other) (Ends-same h h refl refl)
    | inl ours ↦ elim (Bool-cases (from_be16 frame 12 == ether_type_arp)) [
      | inl arp ↦
          rw (long, ours, arp)
            (Ends-same h (arp_handle h (drop 14 frame)) (arp_handle_keeps h (drop 14 frame)).0
              (arp_handle_keeps h (drop 14 frame)).1)
      | inr other ↦ elim (Bool-cases (from_be16 frame 12 == ether_type_ipv4)) [
        | inl ip ↦
            rw (long, ours, other, ip)
              (Answered-Ends send h (ip_handle send h (drop 14 frame)) e
                (ip_handle_cases send h (drop 14 frame)))
        | inr odd ↦ rw (long, ours, other, odd) (Ends-same h h refl refl)
      ]
    ]
  ]
]

-- What follows a call that ends may rely on what it left.
Ends-bind :
    (n t : ℕ) (r : Outcome Host) (k : Host → Outcome Host)
    → Ends n t r
    → ((g : Host) → packets g.rx ≤ n → t ≤ g.tick → Ends n t (k g))
    → Ends n t (r >>= k)
Ends-bind n t (ok g) k e f = f g e.0 e.1
Ends-bind n t overflow k e f = tt
Ends-bind n t out_of_fuel k e f = e

EndsWait-bind :
    (n t : ℕ) (r : Outcome Host) (k : Host → Outcome (Bool × Host))
    → Ends n t r
    → ((g : Host) → packets g.rx ≤ n → t ≤ g.tick → EndsWait n t (k g))
    → EndsWait n t (r >>= k)
EndsWait-bind n t (ok g) k e f = f g e.0 e.1
EndsWait-bind n t overflow k e f = tt
EndsWait-bind n t out_of_fuel k e f = e

Ends-wait-bind :
    (n t : ℕ) (r : Outcome (Bool × Host)) (k : Bool × Host → Outcome Host)
    → EndsWait n t r
    → ((b : Bool) (g : Host) → packets g.rx ≤ n → t ≤ g.tick → Ends n t (k (b, g)))
    → Ends n t (r >>= k)
Ends-wait-bind n t (ok (b, g)) k e f = f b g e.0 e.1
Ends-wait-bind n t overflow k e f = tt
Ends-wait-bind n t out_of_fuel k e f = e

receive_cases :
    (rx : List Rx)
    → (e1000_receive rx ≡ none)
      ⊎ ((frame : List ℕ) × (len : ℕ) × (rest : List Rx) × (e1000_receive rx
            ≡ some (frame, len, rest))
          × (packets rx ≡ suc (packets rest)))
unfolding e1000_receive
receive_cases [] = inl refl
receive_cases (packet frame len ∷ rx) = inr (frame, len, rx, refl, refl)
receive_cases (quiet more ∷ rx) = inl refl

drain-Ends :
    (handle : Handle) (n f : ℕ) (h : Host)
    → EndsBelow n handle
    → packets h.rx ≤ n
    → packets h.rx < f
    → Ends (packets h.rx) h.tick (drain handle f h)
unfolding drain
drain-Ends handle n zero h e l m = absurd (omega arith)
drain-Ends handle n (suc f) h e l m = elim (receive_cases h.rx) [
  | inl empty ↦ rw (empty, drain) (Ends-same h h refl refl)
  | inr (frame, len, rest, next, count) ↦
      let popped : Host = record h { rx = rest } in
      rw (next, drain)
        (Ends-mono (packets rest) (packets h.rx) h.tick h.tick
          (handle popped frame len >>= drain handle f) (omega (arith, count)) (omega arith)
          (Ends-bind (packets rest) h.tick (handle popped frame len) (drain handle f)
            (e popped frame len (omega (arith, count)))
            (λ g p t.
              Ends-mono (packets g.rx) (packets rest) h.tick g.tick (drain handle f g) p t
                (drain-Ends handle n f g e (omega (arith, count)) (omega (arith, count))))))
]

timer_wait_lem :
    (h : Host) → (packets (timer_wait h).rx ≤ packets h.rx) × (h.tick < (timer_wait h).tick)
unfolding timer_wait
timer_wait_lem h = go h.rx refl
  where
    go :
        (rx : List Rx)
        → h.rx ≡ rx
        → (packets (after_quiet h rx).rx ≤ packets h.rx) × (h.tick < (after_quiet h rx).tick)
    go [] e = (omega arith, omega arith)
    go (packet frame len ∷ rx) e = (omega arith, omega arith)
    go (quiet more ∷ rx) e = (omega (arith, ap packets e), omega arith)

-- Twenty rounds are enough, since each lets the clock go on.
wait-EndsWait :
    (handle : Handle) (n f start hop payload_len : ℕ) (h : Host)
    → EndsBelow n handle
    → packets h.rx ≤ n
    → packets h.rx + (start + 20 - h.tick) < f
    → start ≤ h.tick
    → EndsWait (packets h.rx) h.tick (wait handle f start hop payload_len h)
unfolding wait
wait-EndsWait handle n zero start hop payload_len h e l m b = absurd (omega arith)
wait-EndsWait handle n (suc f) start hop payload_len h e l m b =
    elim (Bool-cases (ltb (h.tick - start) 20)) [
      | inr over ↦ rw (over, wait) (omega arith, omega arith)
      | inl more ↦
          let time : h.tick - start < 20 = ltb→lt _ _ more in
          rw (more, wait)
            (EndsWait-bind (packets h.rx) h.tick (drain handle f h) _
              (drain-Ends handle n f h e l (omega arith))
              (λ g p t. elim (Option-cases (arp_resolve g hop)) [
                | inr (mac, known) ↦ rw known (omega arith, omega arith)
                | inl unknown ↦
                    let (still, later) = timer_wait_lem g in
                    rw unknown (
                      EndsWait-mono (packets (timer_wait g).rx) (packets h.rx) h.tick
                        (timer_wait g).tick (wait handle f start hop payload_len (timer_wait g))
                        (omega arith) (omega arith)
                        (wait-EndsWait handle n f start hop payload_len (timer_wait g) e
                          (omega arith) (omega arith) (omega arith)))
              ]))
    ]

sent_or_again :
    (n t : ℕ) (b : Bool) (g : Host) (again : Outcome Host)
    → (packets g.rx ≤ n) × (t ≤ g.tick)
    → Ends n t again
    → Ends n t (elim b [ true ↦ ok g | false ↦ again ])
sent_or_again n t true g again e f = e
sent_or_again n t false g again e f = f

attempts-Ends :
    (handle : Handle) (n f k hop payload_len : ℕ) (h : Host)
    → EndsBelow n handle
    → packets h.rx ≤ n
    → packets h.rx + 20 < f
    → Ends (packets h.rx) h.tick (attempts handle f k hop payload_len h)
unfolding attempts
attempts-Ends handle n f zero hop payload_len h e l m = Ends-same h h refl refl
attempts-Ends handle n f (suc k) hop payload_len h e l m = elim (Option-cases (arp_resolve h hop)) [
  | inr (mac, known) ↦ rw (known, attempts) (Ends-same h (send_tx_buf h mac payload_len) refl refl)
  | inl unknown ↦
      let asked : Host = arp_request h hop in
      let (frames, clock) = arp_request_keeps h hop in
      let count : packets asked.rx ≡ packets h.rx = ap packets frames in
      rw (unknown, attempts)
        (Ends-wait-bind (packets h.rx) h.tick (wait handle f asked.tick hop payload_len asked) _
          (EndsWait-mono (packets asked.rx) (packets h.rx) h.tick asked.tick
            (wait handle f asked.tick hop payload_len asked) (omega (arith, count))
            (omega (arith, clock))
            (wait-EndsWait handle n f asked.tick hop payload_len asked e (omega (arith, count))
              (omega (arith, count)) (omega arith)))
          (λ b g p t.
            sent_or_again (packets h.rx) h.tick b g (attempts handle f k hop payload_len g) (p, t)
              (Ends-mono (packets g.rx) (packets h.rx) h.tick g.tick
                (attempts handle f k hop payload_len g) p t
                (attempts-Ends handle n f k hop payload_len g e (omega arith) (omega arith)))))
]

ip_send-Ends :
    (f : ℕ) (h : Host) (dst protocol : ℕ) (payload : List ℕ)
    → packets h.rx + 22 ≤ f
    → Ends (packets h.rx) h.tick (ip_send f h dst protocol payload)
unfolding ip_send
ip_send-Ends zero h dst protocol payload l = absurd (omega arith)
ip_send-Ends (suc f) h dst protocol payload l = elim (fill_tx_buf_cases h dst protocol payload) [
  | inl long ↦ rw (long, ip_send) tt
  | inr (g, fits, frames, clock) ↦
      let count : packets g.rx ≡ packets h.rx = ap packets frames in
      let handle : Handle = net_handle_packet (ip_send f) in
      rw (fits, ip_send)
        (Ends-mono (packets g.rx) (packets h.rx) h.tick g.tick _ (omega (arith, count))
          (omega (arith, clock))
          (attempts-Ends handle (packets h.rx) f 3 (next_hop h dst) (length payload) g
            (λ k frame len below.
              net_handle_packet-Ends (ip_send f) k frame len
                (λ d q p. ip_send-Ends f k d q p (omega arith)))
            (omega (arith, count)) (omega (arith, count))))
]

-- With fuel for the frames that are still to come and 22 more, `ip_send` does not run out of it:
-- its attempts, its waiting loops and the calls of `net_handle_packet` within them end.
pub ip_send-ne-out_of_fuel :
    (f : ℕ) (h : Host) (dst protocol : ℕ) (payload : List ℕ)
    → packets h.rx + 22 ≤ f
    → ip_send f h dst protocol payload ≢ out_of_fuel
ip_send-ne-out_of_fuel f h dst protocol payload l e =
    subst (Ends (packets h.rx) h.tick) e (ip_send-Ends f h dst protocol payload l)
