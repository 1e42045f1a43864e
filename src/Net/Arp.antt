-- ===== src/Net/Arp.antt =====
-- kernel/net/arp.c: the ARP cache, requests and replies.
pub mod Cache
pub mod Resolve
use mathlib.Core.Option
use gecko_os_mac_compatabili.Common.{
  ℕ, zero, suc, Bool, true, false, not, List, [], ◌∷◌, ◌++◌, Option, none, some, ◌==◌, ◌&&◌, ◌||◌,
  if◌then◌else◌, drop, replicate,
}
use gecko_os_mac_compatabili.Net.Bytes.{be16, be32, read, from_be16, from_be32}
use gecko_os_mac_compatabili.Net.Host.{Host, ArpEntry}
use gecko_os_mac_compatabili.Net.Frame.{net_send_frame, ether_type_arp}

abbrev pub arp_op_request : ℕ
arp_op_request = 1

abbrev pub arp_op_reply : ℕ
arp_op_reply = 2

abbrev pub mac_broadcast : List ℕ
mac_broadcast = replicate 6 0xFF

-- `arp_packet_t` of an IPv4 address over Ethernet, in memory.
pub arp_packet : ℕ → List ℕ → ℕ → List ℕ → ℕ → List ℕ
arp_packet op sender_mac sender_ip target_mac target_ip =
    be16 1
    ++ be16 0x0800
    ++ 6 ∷ 4 ∷ be16 op
    ++ sender_mac
    ++ be32 sender_ip
    ++ target_mac
    ++ be32 target_ip

pub forget_entries : List ArpEntry → List ArpEntry
forget_entries [] = []
forget_entries (e ∷ cache) = record e { valid = false } ∷ forget_entries cache

pub arp_init : Host → Host
unfolding forget_entries
arp_init h = record h { arp_cache = forget_entries h.arp_cache }

-- The first loop of `arp_handle`: `none` if no valid entry has the address.
pub replace_entry : ℕ → List ℕ → List ArpEntry → Option (List ArpEntry)
replace_entry ip mac [] = none
replace_entry ip mac (e ∷ cache) =
    if e.valid && e.ip == ip
    then some (record e { mac = mac } ∷ cache)
    else Option.map (λ rest. e ∷ rest) (replace_entry ip mac cache)

-- The second loop: the first entry that is not valid is taken, if there is one.
pub insert_entry : ℕ → List ℕ → List ArpEntry → List ArpEntry
insert_entry ip mac [] = []
insert_entry ip mac (e ∷ cache) =
    if not e.valid
    then record { ip = ip; mac = mac; valid = true } ∷ cache
    else e ∷ insert_entry ip mac cache

pub learn : ℕ → List ℕ → List ArpEntry → List ArpEntry
unfolding replace_entry insert_entry
learn ip mac cache = elim (replace_entry ip mac cache) [
  | some updated ↦ updated
  | none ↦ insert_entry ip mac cache
]

-- `arp_resolve`: `none` for a return of 0.
unfoldable pub find_mac : ℕ → List ArpEntry → Option (List ℕ)
find_mac ip [] = none
find_mac ip (e ∷ cache) = if e.valid && e.ip == ip then some e.mac else find_mac ip cache

unfoldable pub arp_resolve : Host → ℕ → Option (List ℕ)
unfolding find_mac
arp_resolve h ip = find_mac ip h.arp_cache

-- The answer to a request for this host's address.
pub answer_request : Host → List ℕ → Host
unfolding arp_packet
answer_request h arp =
    let sender_mac = read 6 (drop 8 arp) in
    if from_be16 arp 6 == arp_op_request && from_be32 arp 24 == h.net_ip
    then net_send_frame h sender_mac ether_type_arp
        (arp_packet arp_op_reply h.net_mac h.net_ip sender_mac (from_be32 arp 14))
    else h

pub arp_handle : Host → List ℕ → Host
unfolding answer_request learn
arp_handle h arp =
    let op = from_be16 arp 6 in
    let replied = answer_request h arp in
    if op == arp_op_request || op == arp_op_reply
    then record replied {
      arp_cache = learn (from_be32 arp 14) (read 6 (drop 8 arp)) replied.arp_cache;
    }
    else replied

pub arp_request : Host → ℕ → Host
unfolding arp_packet
arp_request h target_ip =
    net_send_frame h mac_broadcast ether_type_arp
      (arp_packet arp_op_request h.net_mac h.net_ip (replicate 6 0) target_ip)
