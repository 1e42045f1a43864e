-- ===== src/Net/Dns/Lookup.antt =====
-- A plain reply to the query for a name gives the address.
use mathlib.Core.List.{append_assoc}
use gecko_os_mac_compatabili.Common.{
  ℕ, zero, suc, ◌+◌, ◌-◌, ◌*◌, ◌/◌, ◌%◌, ◌^◌, ◌≤◌, ◌<◌, ◌≡◌, ◌≢◌, refl, ap, ◌∙◌, sym, true, false,
  List, [], ◌∷◌, ◌++◌, some, ltb, leb, if◌then◌else◌, arith, length, length-append, bit_and, ◌==◌,
}
use gecko_os_mac_compatabili.Net.Bytes.{byte_at, be16, be32}
use gecko_os_mac_compatabili.Net.Dns.{
  encode_labels, Parse, value, malformed, ◌>>=◌, u16, dns_skip_name, skip_questions, find_answer,
  Answer, address, next_at, truncated, read_answer, dns_parse_reply,
}
use gecko_os_mac_compatabili.Net.Dns.Name.{dns_skip_name-encode_labels}

-- A byte behind a prefix.
byte_at-behind :
    (pre p : List ℕ) (k i : ℕ) → k ≡ length pre + i → byte_at (pre ++ p) k ≡ byte_at p i
byte_at-behind [] p k i h = ap (byte_at p) {x = k} (omega arith)
byte_at-behind (x ∷ pre) p zero i h = absurd (omega arith)
byte_at-behind (x ∷ pre) p (suc k) i h = byte_at-behind pre p k i (omega arith)

-- The answer section with one record of type A: a pointer to the name, class IN, a time to live.
abbrev pub answer_record : ℕ → ℕ → List ℕ
answer_record ttl ip = 0xC0 ∷ 12 ∷ be16 1 ++ be16 1 ++ be32 ttl ++ be16 4 ++ be32 ip

-- The flags of a response without error: the bit for a response, and 0 for the code of the result.
pub record IsAnswered (flags : ℕ) : Type 0 where
  pub word : flags < 2 ^ 16
  pub response : bit_and flags 0x8000 ≢ 0
  pub no_error : bit_and flags 0x000F ≡ 0

-- What a header says: the numbers of the sections' records but for the one question.
pub record Sections : Type 0 where
  pub answers : ℕ
  pub authorities : ℕ
  pub additional : ℕ

abbrev pub reply_header : ℕ → ℕ → Sections → List ℕ
reply_header id flags c =
    be16 id ++ be16 flags ++ be16 1 ++ be16 c.answers ++ be16 c.authorities ++ be16 c.additional

answer_at :
    (pre rest : List ℕ) (len ttl ip g n : ℕ)
    → length pre + 16 ≤ len
    → len < 2 ^ 16
    → ip < 2 ^ 32
    → find_answer (pre ++ (answer_record ttl ip ++ rest)) len (suc g) (suc n) (length pre)
      ≡ value ip
unfolding find_answer dns_skip_name read_answer
answer_at pre rest len ttl ip g n h l b =
    ap (λ (r : Parse ℕ). r >>= λ p. pick (read_answer m len p)) skip ∙ ap pick record_here
  where
    m : List ℕ
    m = pre ++ (answer_record ttl ip ++ rest)

    at : (i k : ℕ) → k ≡ length pre + i → byte_at m k ≡ byte_at (answer_record ttl ip ++ rest) i
    at i k e = byte_at-behind pre (answer_record ttl ip ++ rest) k i e

    leb_len : leb len (length pre) ≡ false
    leb_len = ground arith

    name_end : (length pre + 2) % 2 ^ 16 ≡ length pre + 2
    name_end = omega arith

    long : ltb len (length pre + 2 + 10) ≡ false
    long = ground arith

    body : (length pre + 2 + 10) % 2 ^ 16 ≡ length pre + 12
    body = omega arith

    whole : ltb len (length pre + 12 + 4) ≡ false
    whole = ground arith

    pick : Answer → Parse ℕ
    pick a = elim a [
      | address found ↦ value found
      | next_at after ↦ find_answer m len (suc g) n after
      | truncated ↦ malformed
    ]

    skip : dns_skip_name m len (suc g) (length pre) ≡ value (length pre + 2)
    skip = rw (at 0 (length pre) (omega arith), leb_len, name_end)

    record_here : read_answer m len (length pre + 2) ≡ address ip
    record_here =
        rw
          (
            at 2 (length pre + 2) refl,
            at 3 (suc (length pre + 2)) (omega arith),
            at 10 (length pre + 2 + 8) (omega arith),
            at 11 (suc (length pre + 2 + 8)) (omega arith),
            long,
            body,
          )
          (rw
            (
              at 12 (length pre + 12) refl,
              at 13 (suc (length pre + 12)) (omega arith),
              at 14 (suc (suc (length pre + 12))) (omega arith),
              at 15 (suc (suc (suc (length pre + 12)))) (omega arith),
              whole,
            )
            (ap address (omega arith)))

-- A reply to the query for an encoded name: `rest` is what follows the first answer.
abbrev pub plain_reply : ℕ → ℕ → Sections → List ℕ → ℕ → ℕ → List ℕ → List ℕ
plain_reply id flags c out ttl ip rest =
    reply_header id flags c ++ (out ++ 0 ∷ 0 ∷ 1 ∷ 0 ∷ 1 ∷ (answer_record ttl ip ++ rest))

-- A response without error, with any other flags and any numbers of records in the other
-- sections, to one question for a name that `encode_dns_name` encodes, with at least one answer,
-- the first of which is a pointer to the name with an address of type A, in a message of fewer
-- than 2^16 bytes that holds the question and this answer, and with at least the rounds of the
-- encoding: `dns_parse_reply` gives that address, whatever follows the answer.
pub dns_parse_reply-plain_reply :
    (f g id flags ttl ip len : ℕ) (c : Sections) (name out rest : List ℕ)
    → IsAnswered flags
    → 0 < c.answers
    → c.answers < 2 ^ 16
    → encode_labels f name ≡ some out
    → f ≤ suc g
    → 33 + length out ≤ len
    → len < 2 ^ 16
    → ip < 2 ^ 32
    → dns_parse_reply (suc g) (plain_reply id flags c out ttl ip rest) len ≡ value ip
unfolding dns_parse_reply skip_questions
dns_parse_reply-plain_reply f g id flags ttl ip len c name out rest w some_answer few e l h b i =
    rw (flags_read, answers_read, long, is_response, is_fine)
      (ap (λ (r : Parse ℕ). r >>= find_answer m len (suc g) c.answers) questions
        ∙ ap (λ (t : List ℕ). find_answer t len (suc g) c.answers (17 + length out)) split
        ∙ ap
            (λ (p : ℕ). find_answer (pre ++ (answer_record ttl ip ++ rest)) len (suc g) c.answers p)
            {y = length pre} (omega (arith, size))
        ∙ ap
            (λ (n : ℕ).
              find_answer (pre ++ (answer_record ttl ip ++ rest)) len (suc g) n (length pre))
            {y = suc (c.answers - 1)} (omega arith)
        ∙ answer_at pre rest len ttl ip g (c.answers - 1) (omega (arith, size)) b i)
  where
    m : List ℕ
    m = plain_reply id flags c out ttl ip rest

    flags_read : flags / 256 % 256 * 256 + flags % 256 ≡ flags
    flags_read = omega (arith, w.word)

    answers_read : c.answers / 256 % 256 * 256 + c.answers % 256 ≡ c.answers
    answers_read = omega arith

    is_response : (bit_and flags 0x8000 == 0) ≡ false
    is_response = ground (arith, w.response)

    is_fine : (bit_and flags 0x000F == 0) ≡ true
    is_fine = ground (arith, w.no_error)

    question : List ℕ
    question = 0 ∷ 0 ∷ 1 ∷ 0 ∷ 1 ∷ []

    pre : List ℕ
    pre = reply_header id flags c ++ (out ++ question)

    size : length pre ≡ 17 + length out
    size = omega (arith, length-append out question)

    split : m ≡ pre ++ (answer_record ttl ip ++ rest)
    split =
        ap (λ (t : List ℕ). reply_header id flags c ++ t)
          (sym (append_assoc out question (answer_record ttl ip ++ rest)))

    long : ltb len 12 ≡ false
    long = ground arith

    skip : dns_skip_name m len (suc g) 12 ≡ value (12 + length out + 1)
    skip =
        dns_skip_name-encode_labels f (suc g) name (reply_header id flags c) out
          (0 ∷ 1 ∷ 0 ∷ 1 ∷ (answer_record ttl ip ++ rest)) len e l (omega arith) b

    fits : (12 + length out + 1 + 4) % 2 ^ 16 ≡ 17 + length out
    fits = omega arith

    inside : ltb len (17 + length out) ≡ false
    inside = ground arith

    questions : skip_questions m len (suc g) 1 12 ≡ value (17 + length out)
    questions =
        ap
          (λ (r : Parse ℕ).
            r >>= λ p. if ltb len (u16 (p + 4)) then malformed else value (u16 (p + 4)))
          skip
        ∙ rw (fits, inside) refl
