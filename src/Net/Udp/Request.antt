-- ===== src/Net/Udp/Request.antt =====
-- One request and its reply: from `udp_request_start` to `udp_request_finish`.
use gecko_os_mac_compatabili.Common.{
  ℕ, ◌+◌, ◌^◌, ◌≤◌, ◌<◌, ◌≡◌, ◌≢◌, inl, inr, refl, true, false, List, ◌++◌, none, some, ltb, ◌==◌,
  if◌then◌else◌, arith, length,
}
use gecko_os_mac_compatabili.Net.Bytes.{IsBytes, read, read-append, read-write_at}
use gecko_os_mac_compatabili.Net.Host.{Host, Binding, no_handler, capture, ok, IpSend}
use gecko_os_mac_compatabili.Net.Udp.{
  done, failed, absent, Reply, max_payload, udp_packet, udp_handle, call_handler, bind_table,
  find_handler, udp_capture_reply, udp_bind, udp_send, send_request, udp_unbind, listen,
  udp_request_start, udp_request_try_reply, udp_request_finish, ip_proto_udp,
}
use gecko_os_mac_compatabili.Net.Udp.Bindings.{
  IsTable, Bound, bind_table_lem, bind_table-IsTable, find_handler-unbind_table,
}
use gecko_os_mac_compatabili.Net.Udp.Datagram.{udp_handle-udp_packet}

-- A request is outstanding on a port that is not 0, in a table of bindings that is well formed.
pub record IsWaiting (port : ℕ) (h : Host) : Type 0 where
  pub listening : h.reply_listen_port ≡ port
  pub not_zero : port ≢ 0
  pub bound : find_handler port h.bindings ≡ capture
  pub table : IsTable h.bindings
  pub room : length h.reply_buf ≡ max_payload

-- What a reply must read as.
abbrev pub reply_of : ℕ → ℕ → List ℕ → Reply
reply_of src src_port payload = record {
  src_ip = src;
  src_port = src_port;
  payload_len = length payload;
  payload = payload;
}

capture-reply :
    (h : Host) (port src sp : ℕ) (payload rest : List ℕ)
    → IsWaiting port h
    → length payload ≤ max_payload
    → udp_request_try_reply (udp_capture_reply h src sp (payload ++ rest) (length payload))
      ≡ (done, some (reply_of src sp payload))
unfolding udp_request_try_reply udp_capture_reply
capture-reply h port src sp payload rest w l = rw (
  open_port,
  small,
  read-append payload rest,
  read-write_at payload h.reply_buf (omega (arith, w.room)),
)
  where
    open_port : (h.reply_listen_port == 0) ≡ false
    open_port = ground (arith, w.listening, w.not_zero)

    small : ltb max_payload (length payload) ≡ false
    small = ground arith

-- Whatever was captured before, the datagram is what polling gives.
handled-reply :
    (h : Host) (port src dst sp : ℕ) (payload rest : List ℕ) (packet_len : ℕ)
    → IsWaiting port h
    → IsBytes payload
    → length payload ≤ max_payload
    → sp < 2 ^ 16
    → port < 2 ^ 16
    → 8 + length payload ≤ packet_len
    → udp_request_try_reply
        (udp_handle h src dst (udp_packet src dst sp port payload ++ rest) packet_len)
      ≡ (done, some (reply_of src sp payload))
unfolding call_handler
handled-reply h port src dst sp payload rest packet_len w b l hs hp hl =
    rw (udp_handle-udp_packet src dst sp port payload rest b l h packet_len hs hp hl, w.bound)
      (capture-reply h port src sp payload rest w l)

-- While a request is outstanding and no reply was captured yet, polling reports none; after
-- `udp_handle` of a datagram to the port of the request with at most 1472 bytes of payload,
-- polling gives the sender, its port and exactly the payload, whatever follows the datagram in
-- the buffer.
pub reply-captured :
    (h : Host) (port src dst sp : ℕ) (payload rest : List ℕ) (packet_len : ℕ)
    → IsWaiting port h
    → h.reply_ready ≡ false
    → IsBytes payload
    → length payload ≤ max_payload
    → sp < 2 ^ 16
    → port < 2 ^ 16
    → 8 + length payload ≤ packet_len
    → (udp_request_try_reply h ≡ (failed, none))
      × (udp_request_try_reply
            (udp_handle h src dst (udp_packet src dst sp port payload ++ rest) packet_len)
          ≡ (done, some (reply_of src sp payload)))
unfolding udp_request_try_reply
reply-captured h port src dst sp payload rest packet_len w none_yet b l hs hp hl = (
  ground (arith, w.listening, w.not_zero, none_yet),
  handled-reply h port src dst sp payload rest packet_len w b l hs hp hl,
)

-- While a request is outstanding and a captured reply was not finished, polling gives that
-- reply; after `udp_handle` of a further datagram to the port of the request with at most 1472
-- bytes of payload, polling gives the sender, the port and the payload of the further one
-- instead.
pub reply-overwritten :
    (h : Host) (port src dst sp : ℕ) (payload rest : List ℕ) (packet_len : ℕ)
    → IsWaiting port h
    → h.reply_ready ≡ true
    → IsBytes payload
    → length payload ≤ max_payload
    → sp < 2 ^ 16
    → port < 2 ^ 16
    → 8 + length payload ≤ packet_len
    → (udp_request_try_reply h ≡ (
      done,
      some (record {
        src_ip = h.reply_src_ip;
        src_port = h.reply_src_port;
        payload_len = h.reply_len;
        payload = read h.reply_len h.reply_buf;
      }),
    ))
      × (udp_request_try_reply
            (udp_handle h src dst (udp_packet src dst sp port payload ++ rest) packet_len)
          ≡ (done, some (reply_of src sp payload)))
unfolding udp_request_try_reply
reply-overwritten h port src dst sp payload rest packet_len w ready b l hs hp hl = (
  ground (arith, w.listening, w.not_zero, ready),
  handled-reply h port src dst sp payload rest packet_len w b l hs hp hl,
)

-- Finishing an outstanding request: polling then reports that none is outstanding, its port has
-- no handler, and every other port has the handler it had.
finish-closes :
    (h : Host) (port : ℕ)
    → IsWaiting port h
    → (udp_request_try_reply (udp_request_finish h) ≡ (absent, none))
      × ((j : ℕ)
          → find_handler j (udp_request_finish h).bindings
            ≡ (if port == j then no_handler else find_handler j h.bindings))
unfolding udp_request_try_reply udp_request_finish udp_unbind
finish-closes h port w = (
  ground (arith, w.listening, w.not_zero),
  λ j. ground (
    arith,
    w.listening,
    w.not_zero,
    find_handler-unbind_table port h.bindings j w.not_zero w.table,
  ),
)

-- What a request that starts has handed to `ip_send`: the datagram, in a state in which the port
-- is bound to the capture and no reply is ready.
pub record IsStarted (ip_send : IpSend) (h : Host) (dst port dp : ℕ) (payload : List ℕ) (h' : Host)
    : Type 0 where
  pub before : Host
  pub sent : ip_send before dst ip_proto_udp (udp_packet h.net_ip dst port dp payload) ≡ ok h'
  pub bindings : Bound port capture h.bindings before.bindings
  pub table : IsTable before.bindings
  pub listening : before.reply_listen_port ≡ port
  pub not_ready : before.reply_ready ≡ false

udp_send-done :
    (ip_send : IpSend) (h : Host) (dst sp dp : ℕ) (payload : List ℕ) {h' : Host}
    → udp_send ip_send h dst sp dp payload ≡ ok (done, h')
    → ip_send h dst ip_proto_udp (udp_packet h.net_ip dst sp dp payload) ≡ ok h'
unfolding udp_send
udp_send-done ip_send h dst sp dp payload e = ground arith

send_request-done :
    (ip_send : IpSend) (h : Host) (dst sp dp : ℕ) (payload : List ℕ) {h' : Host}
    → send_request ip_send h dst sp dp payload ≡ ok (done, h')
    → udp_send ip_send h dst sp dp payload ≡ ok (done, h')
unfolding send_request
send_request-done ip_send h dst sp dp payload e = ground arith

-- If `udp_request_start` returns 0 on a well-formed table of bindings, then it handed the
-- datagram for the payload to `ip_send`, which succeeded, in a state in which the source port is
-- bound to the capture and every other port as before, the table is well formed, the listening
-- port is the source port and no reply is ready.
start-IsStarted :
    (ip_send : IpSend) (h : Host) (dst port dp : ℕ) (payload : List ℕ) {h' : Host}
    → IsTable h.bindings
    → udp_request_start ip_send h dst port dp payload ≡ ok (done, h')
    → IsStarted ip_send h dst port dp payload h'
unfolding udp_request_start udp_bind
start-IsStarted ip_send h dst port dp payload {h'} t e =
    elim (bind_table_lem port capture h.bindings refl) [
      | inr (full, _, _) ↦ absurd (ground (arith, full))
      | inl (new, found, bound) ↦ started new found bound
    ]
  where
    started :
        (new : List Binding)
        → bind_table port capture h.bindings ≡ some new
        → Bound port capture h.bindings new
        → IsStarted ip_send h dst port dp payload h'
    started new found bound = record {
      before = record (listen h port) { bindings = new };
      sent =
          udp_send-done ip_send (record (listen h port) { bindings = new }) dst port dp payload
            (send_request-done ip_send (record (listen h port) { bindings = new }) dst port dp
              payload (ground (arith, found)));
      bindings = bound;
      table = bind_table-IsTable port capture h.bindings new refl found t;
      listening = refl;
      not_ready = refl;
    }
