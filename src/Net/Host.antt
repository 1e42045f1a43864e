-- ===== src/Net/Host.antt =====
-- The state of the network stack: the variables of net.c, arp.c, udp.c, icmp.c and ip.c, the
-- frames given to `e1000_send`, and what the network and the clock do meanwhile.
use gecko_os_mac_compatabili.Common.{ℕ, Bool, List}

-- `arp_entry_t`
pub record ArpEntry : Type 0 where
  pub ip : ℕ
  pub mac : List ℕ
  pub valid : Bool

-- `udp_receive_handler_t`: a null pointer, `udp_capture_reply`, or another function by its address.
pub data Handler : Type 0 where
  no_handler capture : Handler
  extern : ℕ → Handler

-- `udp_binding_t`
pub record Binding : Type 0 where
  pub port : ℕ
  pub handler : Handler

-- A call of a handler that is not in the source.
pub record Delivery : Type 0 where
  pub handler : ℕ
  pub src_ip : ℕ
  pub src_port : ℕ
  pub payload : List ℕ

-- What calls of `e1000_receive` find: a frame in a buffer with its length, or none, after which
-- `timer_wait(1)` lets one tick and some more go by.
pub data Rx : Type 0 where
  packet : List ℕ → ℕ → Rx
  quiet : ℕ → Rx

pub record Host : Type 0 where
  pub net_ip : ℕ
  pub net_gateway : ℕ
  pub net_subnet : ℕ
  pub net_mac : List ℕ
  pub arp_cache : List ArpEntry
  pub bindings : List Binding
  pub reply_ready : Bool
  pub reply_src_ip : ℕ
  pub reply_src_port : ℕ
  pub reply_len : ℕ
  pub reply_buf : List ℕ
  pub reply_listen_port : ℕ
  pub echo_received : Bool
  pub ip_tx_buf : List ℕ
  pub sent : List (List ℕ)
  pub delivered : List Delivery
  pub tick : ℕ
  pub rx : List Rx

-- A call ends in a state, writes outside a buffer, or takes more rounds than it was given.
pub data Outcome {ℓ} (A : Type ℓ) : Type ℓ where
  ok : A → Outcome A
  overflow : Outcome A
  out_of_fuel : Outcome A

infixl 5 ◌>>=◌
abbrev pub ◌>>=◌ {ℓ κ} : {A : Type ℓ} {B : Type κ} → Outcome A → (A → Outcome B) → Outcome B
ok a >>= f = f a
overflow >>= f = overflow
out_of_fuel >>= f = out_of_fuel

-- `ip_send` as its callers see it: destination, protocol, payload.
abbrev pub IpSend : Type 0
IpSend = Host → ℕ → ℕ → List ℕ → Outcome Host
