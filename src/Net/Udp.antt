-- ===== src/Net/Udp.antt =====
-- kernel/net/udp.c: port bindings, datagrams, and the capture of one reply.
pub mod Bindings
pub mod Datagram
pub mod Request
mod Tests
use mathlib.Core.Option
use gecko_os_mac_compatabili.Common.{
  ℕ, zero, suc, ◌+◌, ◌-◌, ◌%◌, ◌^◌, Bool, true, false, not, List, [], ◌∷◌, ◌++◌, Option, none, some,
  ltb, ◌==◌, ◌&&◌, ◌||◌, if◌then◌else◌, drop, length, min,
}
use gecko_os_mac_compatabili.Net.Bytes.{be16, read, from_be16, write_at}
use gecko_os_mac_compatabili.Net.Host.{
  Host, Binding, Handler, no_handler, capture, extern, Delivery, Outcome, ok, ◌>>=◌, IpSend,
}
use gecko_os_mac_compatabili.Net.Checksum.{udp_checksum}

abbrev pub ip_proto_udp : ℕ
ip_proto_udp = 17

-- UDP_MAX_PAYLOAD, and the size of `s_reply_buf`.
abbrev pub max_payload : ℕ
max_payload = 1472

abbrev pub udp_header_size : ℕ
udp_header_size = 8

-- `handler != 0`
abbrev pub is_set : Handler → Bool
is_set no_handler = false
is_set capture = true
is_set (extern a) = true

-- The first loop of `udp_bind`.
pub rebind : ℕ → Handler → List Binding → Option (List Binding)
rebind port f [] = none
rebind port f (b ∷ bs) =
    if is_set b.handler && b.port == port
    then some (record b { handler = f } ∷ bs)
    else Option.map (λ rest. b ∷ rest) (rebind port f bs)

-- The second loop.
pub bind_free : ℕ → Handler → List Binding → Option (List Binding)
bind_free port f [] = none
bind_free port f (b ∷ bs) =
    if is_set b.handler
    then Option.map (λ rest. b ∷ rest) (bind_free port f bs)
    else some (record { port = port; handler = f } ∷ bs)

-- `udp_bind` on the table; `none` is the return of -1.
pub bind_table : ℕ → Handler → List Binding → Option (List Binding)
unfolding rebind bind_free
bind_table port f bs = elim (rebind port f bs) [ some new ↦ some new | none ↦ bind_free port f bs ]

pub unbind_table : ℕ → List Binding → List Binding
unbind_table port [] = []
unbind_table port (b ∷ bs) =
    if b.port == port
    then record { port = 0; handler = no_handler } ∷ bs
    else b ∷ unbind_table port bs

-- The search of `udp_handle`.
pub find_handler : ℕ → List Binding → Handler
find_handler port [] = no_handler
find_handler port (b ∷ bs) =
    if is_set b.handler && b.port == port then b.handler else find_handler port bs

-- A return of 0, of -1, or of -2.
pub data Status : Type 0 where
  done failed absent : Status

pub udp_bind : Host → ℕ → Handler → Status × Host
unfolding bind_table
udp_bind h port f = elim (bind_table port f h.bindings) [
  | some new ↦ (done, record h { bindings = new })
  | none ↦ (failed, h)
]

pub udp_unbind : Host → ℕ → Host
unfolding unbind_table
udp_unbind h port = record h { bindings = unbind_table port h.bindings }

pub udp_capture_reply : Host → ℕ → ℕ → List ℕ → ℕ → Host
udp_capture_reply h src_ip src_port payload payload_len =
    let n = if ltb max_payload payload_len then max_payload else payload_len in
    record h {
      reply_src_ip = src_ip;
      reply_src_port = src_port;
      reply_buf = write_at h.reply_buf 0 (read n payload);
      reply_len = n;
      reply_ready = true;
    }

-- `bindings[i].handler(src_ip, src_port, payload, payload_len)`
pub call_handler : Handler → Host → ℕ → ℕ → List ℕ → ℕ → Host
unfolding udp_capture_reply
call_handler no_handler h src_ip src_port payload payload_len = h
call_handler capture h src_ip src_port payload payload_len =
    udp_capture_reply h src_ip src_port payload payload_len
call_handler (extern a) h src_ip src_port payload payload_len = record h {
  delivered =
      h.delivered
      ++ (record {
        handler = a;
        src_ip = src_ip;
        src_port = src_port;
        payload = read payload_len payload;
      }
          ∷ []);
}

-- `udp_len < 8 || udp_len > packet_len`, or a checksum that is not 0 and does not validate.
pub rejects : ℕ → ℕ → List ℕ → ℕ → Bool
rejects src_ip dst_ip packet packet_len =
    let udp_len = from_be16 packet 4 in
    ltb packet_len udp_header_size
    || ltb udp_len udp_header_size
    || ltb packet_len udp_len
    || (not (from_be16 packet 6 == 0)
        && not (udp_checksum src_ip dst_ip (read udp_len packet) == 0))

pub udp_handle : Host → ℕ → ℕ → List ℕ → ℕ → Host
unfolding rejects find_handler call_handler
udp_handle h src_ip dst_ip packet packet_len =
    if rejects src_ip dst_ip packet packet_len
    then h
    else call_handler (find_handler (from_be16 packet 2) h.bindings) h src_ip (from_be16 packet 0)
        (drop 8 packet) (from_be16 packet 4 - udp_header_size)

-- `packet` as `udp_send` fills it.
pub udp_packet : ℕ → ℕ → ℕ → ℕ → List ℕ → List ℕ
udp_packet src_ip dst_ip src_port dst_port payload =
    let ports = be16 src_port ++ be16 dst_port ++ be16 (udp_header_size + length payload) in
    let checksum = udp_checksum src_ip dst_ip (ports ++ 0 ∷ 0 ∷ payload) in
    ports ++ be16 (if checksum == 0 then 0xFFFF else checksum) ++ payload

pub udp_send : IpSend → Host → ℕ → ℕ → ℕ → List ℕ → Outcome (Status × Host)
udp_send ip_send h dst_ip src_port dst_port payload =
    if ltb max_payload (length payload)
    then ok (failed, h)
    else (ip_send h dst_ip ip_proto_udp (udp_packet h.net_ip dst_ip src_port dst_port payload)
        >>= λ sent. ok (done, sent))

-- `udp_request_start` after `udp_bind` has succeeded.
pub send_request : IpSend → Host → ℕ → ℕ → ℕ → List ℕ → Outcome (Status × Host)
unfolding udp_unbind
send_request ip_send h dst_ip src_port dst_port payload =
    udp_send ip_send h dst_ip src_port dst_port payload >>= λ r. elim r.0 [
      | done ↦ ok (done, r.1)
      | _ ↦ ok (failed, record (udp_unbind r.1 src_port) { reply_listen_port = 0 })
    ]

-- A reset of the reply state for a request from `port`.
abbrev pub listen : Host → ℕ → Host
listen h port = record h { reply_ready = false; reply_len = 0; reply_listen_port = port }

pub udp_request_start : IpSend → Host → ℕ → ℕ → ℕ → List ℕ → Outcome (Status × Host)
unfolding udp_bind
udp_request_start ip_send h dst_ip src_port dst_port payload =
    let (status, bound) = udp_bind (listen h src_port) src_port capture in
    elim status [
      | done ↦ send_request ip_send bound dst_ip src_port dst_port payload
      | _ ↦ ok (failed, record bound { reply_listen_port = 0 })
    ]

-- `udp_reply_t`, with `received` set.
pub record Reply : Type 0 where
  pub src_ip : ℕ
  pub src_port : ℕ
  pub payload_len : ℕ
  pub payload : List ℕ

pub udp_request_try_reply : Host → Status × Option Reply
udp_request_try_reply h =
    if h.reply_listen_port == 0
    then (absent, none)
    else if not h.reply_ready
    then (failed, none)
    else (
      done,
      some (record {
        src_ip = h.reply_src_ip;
        src_port = h.reply_src_port;
        payload_len = h.reply_len;
        payload = read h.reply_len h.reply_buf;
      }),
    )

pub udp_request_finish : Host → Host
unfolding udp_unbind
udp_request_finish h =
    let closed =
      if h.reply_listen_port == 0
      then h
      else record (udp_unbind h h.reply_listen_port) { reply_listen_port = 0 } in
    record closed { reply_ready = false; reply_len = 0 }
