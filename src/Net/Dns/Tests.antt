-- ===== src/Net/Dns/Tests.antt =====
-- A query for gecko.os and a reply to it.
use gecko_os_mac_compatabili.Common.{
  ℕ, zero, suc, ◌≡◌, ◌≢◌, refl, List, [], ◌∷◌, ◌++◌, some, arith, length,
}
use gecko_os_mac_compatabili.Net.Bytes.{be16, IsBytes}
use gecko_os_mac_compatabili.Net.Dns.{
  take_label, skip_dot, encode_labels, value, looping, dns_skip_name, skip_questions, find_answer,
  read_answer, dns_parse_reply,
}
use gecko_os_mac_compatabili.Net.Dns.Name.{
  AllBytes, Skips, dns_skip_name-encode_labels, dns_skip_name-Skips,
}
use gecko_os_mac_compatabili.Net.Dns.Reply.{
  Agree, dns_parse_reply-ne-looping, dns_parse_reply-Agree,
}
use gecko_os_mac_compatabili.Net.Dns.Lookup.{
  IsAnswered, Sections, plain_reply, dns_parse_reply-plain_reply,
}

-- "a.bc"
abbrev name : List ℕ
name = b'a' ∷ b'.' ∷ b'b' ∷ b'c' ∷ []

abbrev encoded : List ℕ
encoded = 1 ∷ b'a' ∷ 2 ∷ b'b' ∷ b'c' ∷ []

encode_name : encode_labels 5 name ≡ some encoded
unfolding encode_labels take_label skip_dot
encode_name = refl

-- A response with no question and one answer for the root name, 10.0.2.15.
abbrev reply : List ℕ
reply =
    be16 0x1234
    ++ be16 0x8180
    ++ be16 0
    ++ be16 1
    ++ be16 0
    ++ be16 0
    ++ 0 ∷ be16 1
    ++ be16 1
    ++ be16 0
    ++ be16 60
    ++ be16 4
    ++ 10 ∷ 0 ∷ 2 ∷ 15 ∷ []

reply_address : dns_parse_reply 40 reply 27 ≡ value 0x0A00020F
unfolding dns_parse_reply skip_questions find_answer dns_skip_name read_answer
reply_address = refl

IsBytes-AllBytes : (p : List ℕ) → IsBytes p → AllBytes p
IsBytes-AllBytes [] h i = omega arith
IsBytes-AllBytes (x ∷ p) h zero = h.0
IsBytes-AllBytes (x ∷ p) h (suc i) = IsBytes-AllBytes p h.1 i

dns_skip_name-encode_labels_example :
    dns_skip_name (9 ∷ 9 ∷ 1 ∷ b'a' ∷ 2 ∷ b'b' ∷ b'c' ∷ 0 ∷ 7 ∷ []) 9 5 2 ≡ value 8
dns_skip_name-encode_labels_example =
    dns_skip_name-encode_labels 5 5 name (9 ∷ 9 ∷ []) encoded (7 ∷ []) 9 encode_name (omega arith)
      (omega arith) (omega arith)

dns_skip_name-Skips_example : Skips 12 27 (dns_skip_name reply 27 16 12)
dns_skip_name-Skips_example =
    dns_skip_name-Skips reply 27 16 12 (IsBytes-AllBytes reply (omega arith)) (omega arith)
      (omega arith) (omega arith)

dns_parse_reply-ne-looping_example : dns_parse_reply 28 reply 27 ≢ looping
dns_parse_reply-ne-looping_example =
    dns_parse_reply-ne-looping reply 27 28 (IsBytes-AllBytes reply (omega arith)) (omega arith)
      (omega arith)

shared_prefix : (p rest rest' : List ℕ) → Agree (length p) (p ++ rest) (p ++ rest')
shared_prefix [] rest rest' i h = absurd (omega arith)
shared_prefix (x ∷ p) rest rest' zero h = refl
shared_prefix (x ∷ p) rest rest' (suc i) h = shared_prefix p rest rest' i (omega arith)

dns_parse_reply-Agree_example :
    dns_parse_reply 28 (reply ++ 1 ∷ []) 27 ≡ dns_parse_reply 28 (reply ++ 2 ∷ []) 27
dns_parse_reply-Agree_example =
    dns_parse_reply-Agree (reply ++ 1 ∷ []) (reply ++ 2 ∷ []) 27
      (shared_prefix reply (1 ∷ []) (2 ∷ [])) (omega arith) 28

-- An authoritative answer: flags 0x8580.
authoritative-IsAnswered : IsAnswered 0x8580
authoritative-IsAnswered = record {
  word = omega arith;
  response = omega arith;
  no_error = omega arith;
}

-- Three answers, one name server, no additional record.
abbrev sections : Sections
sections = record { answers = 3; authorities = 1; additional = 0 }

dns_parse_reply-plain_reply_example :
    dns_parse_reply 5 (plain_reply 0x1234 0x8580 sections encoded 60 0x0A00020F (9 ∷ [])) 38
    ≡ value 0x0A00020F
dns_parse_reply-plain_reply_example =
    dns_parse_reply-plain_reply 5 4 0x1234 0x8580 60 0x0A00020F 38 sections name encoded (9 ∷ [])
      authoritative-IsAnswered (omega arith) (omega arith) encode_name (omega arith) (omega arith)
      (omega arith) (omega arith)
