-- ===== src/Net/Udp/Tests.antt =====
-- Bindings and requests of kernel/net/udp.c on a table of two slots.
use gecko_os_mac_compatabili.Common.{
  ℕ, ◌≡◌, ◌⊎◌, refl, true, false, List, [], ◌∷◌, ◌++◌, none, some, arith, replicate,
}
use gecko_os_mac_compatabili.Net.Host.{Host, Binding, no_handler, capture, extern, ok, IpSend}
use gecko_os_mac_compatabili.Net.Udp.{
  bind_table, rebind, bind_free, unbind_table, find_handler, udp_handle, udp_packet,
  udp_request_start, udp_request_try_reply, udp_bind, send_request, udp_send, call_handler, done,
  failed, listen,
}
use gecko_os_mac_compatabili.Net.Udp.Bindings.{
  IsTable, Bound, all_set, bind_table_lem, find_handler-unbind_table,
}
use gecko_os_mac_compatabili.Net.Udp.Datagram.{udp_handle-udp_packet}
use gecko_os_mac_compatabili.Net.Udp.Request.{
  IsWaiting, reply_of, reply-captured, reply-overwritten,
}

abbrev one_bound : List Binding
one_bound =
    record { port = 68; handler = extern 7 } ∷ record { port = 0; handler = no_handler } ∷ []

abbrev both_bound : List Binding
both_bound =
    record { port = 68; handler = extern 7 } ∷ record { port = 49152; handler = capture } ∷ []

abbrev host : Host
host = record {
  net_ip = 0x0A00020F;
  net_gateway = 0x0A000202;
  net_subnet = 0xFFFFFF00;
  net_mac = 2 ∷ 0 ∷ 0 ∷ 0 ∷ 0 ∷ 1 ∷ [];
  arp_cache = [];
  bindings = one_bound;
  reply_ready = false;
  reply_src_ip = 0;
  reply_src_port = 0;
  reply_len = 0;
  reply_buf = replicate 1472 0;
  reply_listen_port = 0;
  echo_received = false;
  ip_tx_buf = replicate 1514 0;
  sent = [];
  delivered = [];
  tick = 0;
  rx = [];
}

abbrev waiting : Host
waiting = record host { bindings = both_bound; reply_listen_port = 49152 }

one_bound-IsTable : IsTable one_bound
unfolding find_handler
one_bound-IsTable = (λ e. cc, λ _. refl, (λ _. refl, λ e. cc, tt))

both_bound-IsTable : IsTable both_bound
unfolding find_handler
both_bound-IsTable = (λ e. cc, λ _. refl, (λ e. cc, λ _. refl, tt))

bind_one : bind_table 49152 capture one_bound ≡ some both_bound
unfolding bind_table rebind bind_free
bind_one = refl

waiting-IsWaiting : IsWaiting 49152 waiting
unfolding find_handler
waiting-IsWaiting = record {
  listening = refl;
  not_zero = omega arith;
  bound = refl;
  table = both_bound-IsTable;
  room = refl;
}

bind_table_lem_example :
    ((new : List Binding) × (bind_table 49152 capture one_bound ≡ some new)
      × Bound 49152 capture one_bound new)
    ⊎ ((bind_table 49152 capture one_bound ≡ none)
        × (find_handler 49152 one_bound ≡ no_handler)
        × (all_set one_bound ≡ true))
bind_table_lem_example = bind_table_lem 49152 capture one_bound refl

find_handler-unbind_table_example : find_handler 68 (unbind_table 68 both_bound) ≡ no_handler
find_handler-unbind_table_example =
    find_handler-unbind_table 68 both_bound 68 (omega arith) both_bound-IsTable

udp_handle-udp_packet_example :
    udp_handle waiting 0x08080404 0x0A00020F
      (udp_packet 0x08080404 0x0A00020F 53 68 (1 ∷ 2 ∷ 3 ∷ []) ++ 9 ∷ [])
      11
    ≡ call_handler (find_handler 68 both_bound) waiting 0x08080404 53 (1 ∷ 2 ∷ 3 ∷ 9 ∷ []) 3
udp_handle-udp_packet_example =
    udp_handle-udp_packet 0x08080404 0x0A00020F 53 68 (1 ∷ 2 ∷ 3 ∷ []) (9 ∷ []) (omega arith)
      (omega arith) waiting 11 (omega arith) (omega arith) (omega arith)

abbrev reply_packet : List ℕ
reply_packet = udp_packet 0x08080404 0x0A00020F 53 49152 (1 ∷ 2 ∷ 3 ∷ []) ++ 9 ∷ []

reply-captured_example :
    (udp_request_try_reply waiting ≡ (failed, none))
    × (udp_request_try_reply (udp_handle waiting 0x08080404 0x0A00020F reply_packet 11)
        ≡ (done, some (reply_of 0x08080404 53 (1 ∷ 2 ∷ 3 ∷ []))))
reply-captured_example =
    reply-captured waiting 49152 0x08080404 0x0A00020F 53 (1 ∷ 2 ∷ 3 ∷ []) (9 ∷ []) 11
      waiting-IsWaiting refl (omega arith) (omega arith) (omega arith) (omega arith) (omega arith)

-- A reply of two bytes was captured.
abbrev replied : Host
replied = record waiting {
  reply_ready = true;
  reply_src_ip = 0x01010101;
  reply_src_port = 53;
  reply_len = 2;
  reply_buf = 7 ∷ 8 ∷ replicate 1470 0;
}

replied-IsWaiting : IsWaiting 49152 replied
unfolding find_handler
replied-IsWaiting = record {
  listening = refl;
  not_zero = omega arith;
  bound = refl;
  table = both_bound-IsTable;
  room = refl;
}

reply-overwritten_example :
    (udp_request_try_reply replied ≡ (done, some (reply_of 0x01010101 53 (7 ∷ 8 ∷ []))))
    × (udp_request_try_reply (udp_handle replied 0x08080404 0x0A00020F reply_packet 11)
        ≡ (done, some (reply_of 0x08080404 53 (1 ∷ 2 ∷ 3 ∷ []))))
reply-overwritten_example =
    reply-overwritten replied 49152 0x08080404 0x0A00020F 53 (1 ∷ 2 ∷ 3 ∷ []) (9 ∷ []) 11
      replied-IsWaiting refl (omega arith) (omega arith) (omega arith) (omega arith) (omega arith)

-- A network layer that accepts every packet.
abbrev accept : IpSend
accept h dst protocol payload = ok h

started :
    udp_request_start accept host 0x08080404 49152 53 (1 ∷ [])
    ≡ ok (done, record (listen host 49152) { bindings = both_bound })
unfolding udp_request_start udp_bind bind_table rebind bind_free send_request udp_send
started = refl
