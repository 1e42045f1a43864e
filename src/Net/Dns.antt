-- ===== src/Net/Dns.antt =====
-- kernel/net/dns.c: the names, the query and the reply of a DNS lookup.
pub mod Name
pub mod Reply
pub mod Lookup
mod Tests
use mathlib.Core.Option
use gecko_os_mac_compatabili.Common.{
  ℕ, zero, suc, ◌+◌, ◌-◌, ◌*◌, ◌/◌, ◌%◌, ◌^◌, Bool, true, false, not, List, [], ◌∷◌, ◌++◌, Option,
  none, some, ltb, leb, ◌==◌, ◌&&◌, ◌||◌, if◌then◌else◌, length, bit_and, replicate,
}
use gecko_os_mac_compatabili.Net.Bytes.{be16, byte_at, from_be16, from_be32}
use gecko_os_mac_compatabili.Net.Host.{Host, Outcome, ok, overflow, IpSend}
use gecko_os_mac_compatabili.Net.Frame.{ip_address}
use gecko_os_mac_compatabili.Net.Udp.{Status, udp_request_start}

abbrev pub dns_header_size : ℕ
dns_header_size = 12

abbrev pub dns_type_a : ℕ
dns_type_a = 1

abbrev pub dns_class_in : ℕ
dns_class_in = 1

-- The characters before the next dot, and the rest from the dot on. A name is a list of bytes with
-- no NUL.
pub take_label : List ℕ → List ℕ × List ℕ
take_label [] = ([], [])
take_label (c ∷ cs) =
    let (label, rest) = take_label cs in if c == b'.' then ([], c ∷ cs) else (c ∷ label, rest)

pub skip_dot : List ℕ → List ℕ
skip_dot [] = []
skip_dot (c ∷ cs) = if c == b'.' then cs else c ∷ cs

-- The loop of `encode_dns_name`; `none` is the early return on an empty or too long label.
pub encode_labels : ℕ → List ℕ → Option (List ℕ)
encode_labels zero name = none
encode_labels (suc f) [] = some []
encode_labels (suc f) (c ∷ cs) =
    let label = (take_label (c ∷ cs)).0 in
    let more = encode_labels f (skip_dot (take_label (c ∷ cs)).1) in
    if length label == 0 || ltb 63 (length label)
    then none
    else Option.map (λ out. length label ∷ label ++ out) more

-- The bytes written to `out`, whose number goes to `out_len`; `none` leaves `out_len` alone.
pub encode_dns_name : List ℕ → Option (List ℕ)
unfolding encode_labels take_label skip_dot
encode_dns_name name = Option.map (λ out. out ++ 0 ∷ []) (encode_labels (length name + 1) name)

-- `send_dns` on an invalid name goes on with a length that was never set.
pub data Query : Type 0 where
  query : List ℕ → Query
  uninitialized : Query
  overrun : Query

abbrev pub query_header : List ℕ
query_header = be16 0x1234 ++ be16 0x0100 ++ be16 1 ++ replicate 6 0

-- `query` in the 512 bytes on the stack.
pub dns_query : List ℕ → Query
unfolding encode_dns_name
dns_query name = elim (encode_dns_name name) [
  | none ↦ uninitialized
  | some out ↦
      if ltb 512 (dns_header_size + length out + 4)
      then overrun
      else query (query_header ++ out ++ be16 dns_type_a ++ be16 dns_class_in)
]

-- `none` where the length is not initialized.
pub send_dns : IpSend → Host → List ℕ → Option (Outcome (Status × Host))
unfolding dns_query
send_dns ip_send h name = elim (dns_query name) [
  | query bytes ↦ some (udp_request_start ip_send h (ip_address 8 8 4 4) 49152 53 bytes)
  | uninitialized ↦ none
  | overrun ↦ some overflow
]

-- A value, a return of -1, or more rounds than were given.
pub data Parse {ℓ} (A : Type ℓ) : Type ℓ where
  value : A → Parse A
  malformed : Parse A
  looping : Parse A

infixl 5 ◌>>=◌
abbrev pub ◌>>=◌ {ℓ κ} : {A : Type ℓ} {B : Type κ} → Parse A → (A → Parse B) → Parse B
value a >>= f = f a
malformed >>= f = malformed
looping >>= f = looping

abbrev u16 : ℕ → ℕ
u16 n = n % 2 ^ 16

-- `dns_skip_name`: the position after the name. Positions are `uint16_t`.
pub dns_skip_name : List ℕ → ℕ → ℕ → ℕ → Parse ℕ
dns_skip_name msg len zero p = looping
dns_skip_name msg len (suc f) p =
    let label = byte_at msg p in
    let next = u16 (p + 1 + label) in
    let more = dns_skip_name msg len f next in
    if leb len p
    then malformed
    else if label == 0
    then value (u16 (p + 1))
    else if bit_and label 0xC0 == 0xC0
    then value (u16 (p + 2))
    else if not (bit_and label 0xC0 == 0)
    then malformed
    else if ltb len next
    then malformed
    else more

-- The loop over the questions, with `n` left.
pub skip_questions : List ℕ → ℕ → ℕ → ℕ → ℕ → Parse ℕ
skip_questions msg len f zero pos = value pos
skip_questions msg len f (suc n) pos = dns_skip_name msg len f pos >>= λ p.
    if ltb len (u16 (p + 4)) then malformed else skip_questions msg len f n (u16 (p + 4))

-- What one answer record is: the address that is looked for, another record with the position of
-- the next, or one that does not fit the message.
pub data Answer : Type 0 where
  address next_at : ℕ → Answer
  truncated : Answer

-- The body of the loop over the answers, from the end of the name at `p` on.
pub read_answer : List ℕ → ℕ → ℕ → Answer
read_answer msg len p =
    let type = from_be16 msg p in
    let rdlength = from_be16 msg (p + 8) in
    let body = u16 (p + 10) in
    if ltb len (p + 10)
    then truncated
    else if type == dns_type_a && rdlength == 4
    then (if ltb len (body + 4) then truncated else address (from_be32 msg body))
    else if ltb len (u16 (body + rdlength))
    then truncated
    else next_at (u16 (body + rdlength))

-- The loop over the answers, with `n` left.
pub find_answer : List ℕ → ℕ → ℕ → ℕ → ℕ → Parse ℕ
find_answer msg len f zero pos = malformed
find_answer msg len f (suc n) pos = dns_skip_name msg len f pos >>= λ p.
    elim (read_answer msg len p) [
      | address ip ↦ value ip
      | next_at after ↦ find_answer msg len f n after
      | truncated ↦ malformed
    ]

-- -1 is `none`.
unfoldable pub dns_reply_rcode : List ℕ → ℕ → Option ℕ
dns_reply_rcode reply len =
    if ltb len dns_header_size then none else some (bit_and (from_be16 reply 2) 0x000F)

pub dns_parse_reply : ℕ → List ℕ → ℕ → Parse ℕ
dns_parse_reply f reply len =
    let flags = from_be16 reply 2 in
    if ltb len dns_header_size
    then malformed
    else if bit_and flags 0x8000 == 0
    then malformed
    else if not (bit_and flags 0x000F == 0)
    then malformed
    else (skip_questions reply len f (from_be16 reply 4) dns_header_size
        >>= find_answer reply len f (from_be16 reply 6))
