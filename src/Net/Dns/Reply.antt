-- ===== src/Net/Dns/Reply.antt =====
-- Replies: parsing ends, and reads nothing past the message.
use gecko_os_mac_compatabili.Common.{
  ℕ, zero, suc, ◌+◌, ◌^◌, ◌≤◌, ◌<◌, ◌≡◌, ◌≢◌, inl, inr, refl, subst, List, ltb, leb, ◌==◌,
  if◌then◌else◌, arith, bit_and, Bool-cases,
}
use gecko_os_mac_compatabili.Net.Bytes.{byte_at, from_be16}
use gecko_os_mac_compatabili.Net.Dns.{
  Parse, value, malformed, looping, ◌>>=◌, u16, dns_skip_name, skip_questions, find_answer, Answer,
  address, next_at, truncated, read_answer, dns_parse_reply,
}
use gecko_os_mac_compatabili.Net.Dns.Name.{AllBytes, Skips, dns_skip_name-Skips}

module _ (msg : List ℕ) (len f : ℕ) (bytes : AllBytes msg) (room : len + 64 ≤ 2 ^ 16)
    (enough : len < f) where
  skip_ends : (p : ℕ) → p ≤ len → Skips p len (dns_skip_name msg len f p)
  skip_ends p l = dns_skip_name-Skips msg len f p bytes room l (omega arith)

  -- The position after the questions lies in the message.
  abbrev InMessage : Parse ℕ → Type 0
  InMessage (value q) = q ≤ len
  InMessage malformed = Unit {0}
  InMessage looping = ⊥

  abbrev Stops : Parse ℕ → Type 0
  Stops (value q) = Unit {0}
  Stops malformed = Unit {0}
  Stops looping = ⊥

  skip_questions-InMessage : (n p : ℕ) → p ≤ len → InMessage (skip_questions msg len f n p)
  unfolding skip_questions
  skip_questions-InMessage zero p l = l
  skip_questions-InMessage (suc n) p l =
      go (dns_skip_name msg len f p) (skip_ends p l) (λ q. skip_questions-InMessage n q)
    where
      go :
          (r : Parse ℕ)
          → Skips p len r
          → ((q : ℕ) → q ≤ len → InMessage (skip_questions msg len f n q))
          → InMessage (
              r >>= λ q.
              if ltb len (u16 (q + 4)) then malformed else skip_questions msg len f n (u16 (q + 4)))
      go (value q) s rec = ground (arith, rec (u16 (q + 4)))
      go malformed s rec = tt
      go looping s rec = s

  next-le : (p q : ℕ) → read_answer msg len p ≡ next_at q → q ≤ len
  unfolding read_answer
  next-le p q e = ground arith

  find_answer-Stops : (n p : ℕ) → p ≤ len → Stops (find_answer msg len f n p)
  unfolding find_answer
  find_answer-Stops zero p l = tt
  find_answer-Stops (suc n) p l =
      go (dns_skip_name msg len f p) (skip_ends p l) (λ q. find_answer-Stops n q)
    where
      pick :
          (a : Answer)
          → ((q : ℕ) → a ≡ next_at q → q ≤ len)
          → ((q : ℕ) → q ≤ len → Stops (find_answer msg len f n q))
          → Stops (elim a [
            | address ip ↦ value ip
            | next_at after ↦ find_answer msg len f n after
            | truncated ↦ malformed
          ])
      pick (address ip) h rec = tt
      pick (next_at q) h rec = rec q (h q refl)
      pick truncated h rec = tt

      go :
          (r : Parse ℕ)
          → Skips p len r
          → ((q : ℕ) → q ≤ len → Stops (find_answer msg len f n q))
          → Stops (
              r >>= λ q. elim (read_answer msg len q) [
                | address ip ↦ value ip
                | next_at after ↦ find_answer msg len f n after
                | truncated ↦ malformed
              ])
      go (value q) s rec = pick (read_answer msg len q) (next-le q) rec
      go malformed s rec = tt
      go looping s rec = s

  Stops-bind :
      (r : Parse ℕ) (k : ℕ → Parse ℕ)
      → InMessage r
      → ((q : ℕ) → q ≤ len → Stops (k q))
      → Stops (r >>= k)
  Stops-bind (value q) k h e = e q h
  Stops-bind malformed k h e = tt
  Stops-bind looping k h e = h

  dns_parse_reply-Stops : Stops (dns_parse_reply f msg len)
  unfolding dns_parse_reply
  dns_parse_reply-Stops = elim (Bool-cases (ltb len 12)) [
    | inl short ↦ rw short tt
    | inr long ↦ elim (Bool-cases (bit_and (from_be16 msg 2) 0x8000 == 0)) [
      | inl request ↦ rw (long, request) tt
      | inr response ↦ elim (Bool-cases (bit_and (from_be16 msg 2) 0x000F == 0)) [
        | inr error ↦ rw (long, response, error) tt
        | inl noerror ↦
            rw (long, response, noerror)
              (Stops-bind (skip_questions msg len f (from_be16 msg 4) 12)
                (find_answer msg len f (from_be16 msg 6))
                (skip_questions-InMessage (from_be16 msg 4) 12 (ground arith))
                (λ q l. find_answer-Stops (from_be16 msg 6) q l))
      ]
    ]
  ]

  -- A reply of bytes whose length is at least 64 below 2^16 is parsed with no endless loop: with
  -- more rounds for each name than the message has bytes, `dns_parse_reply` returns an address
  -- or an error.
  pub dns_parse_reply-ne-looping : dns_parse_reply f msg len ≢ looping
  dns_parse_reply-ne-looping e = subst Stops e dns_parse_reply-Stops

-- Two buffers that hold the same message of `len` bytes.
abbrev pub Agree : ℕ → List ℕ → List ℕ → Type 0
Agree len m m' = (i : ℕ) → i < len → byte_at m i ≡ byte_at m' i

>>=-cong : (r : Parse ℕ) (k k' : ℕ → Parse ℕ) → ((q : ℕ) → k q ≡ k' q) → (r >>= k) ≡ (r >>= k')
>>=-cong (value q) k k' h = h q
>>=-cong malformed k k' h = refl
>>=-cong looping k k' h = refl

module _ (m m' : List ℕ) (len : ℕ) (same : Agree len m m') (small : len < 2 ^ 16) where
  dns_skip_name-Agree : (f p : ℕ) → dns_skip_name m len f p ≡ dns_skip_name m' len f p
  unfolding dns_skip_name
  dns_skip_name-Agree zero p = refl
  dns_skip_name-Agree (suc f) p = elim (Bool-cases (leb len p)) [
    | inl past ↦ rw past
    | inr inside ↦
        rw (inside, same p (ground arith), dns_skip_name-Agree f (u16 (p + 1 + byte_at m' p)))
  ]

  skip_questions-Agree : (f n p : ℕ) → skip_questions m len f n p ≡ skip_questions m' len f n p
  unfolding skip_questions
  skip_questions-Agree f zero p = refl
  skip_questions-Agree f (suc n) p =
      rw (dns_skip_name-Agree f p)
        (>>=-cong (dns_skip_name m' len f p) _ _ (λ q. rw (skip_questions-Agree f n (u16 (q + 4)))))

  read_answer-Agree : (p : ℕ) → read_answer m len p ≡ read_answer m' len p
  unfolding read_answer
  read_answer-Agree p = elim (Bool-cases (ltb len (p + 10))) [
    | inl short ↦ rw short
    | inr long ↦
        let body : u16 (p + 10) ≡ p + 10 = ground arith in
        rw
          (
            long,
            same p (ground arith),
            same (suc p) (ground arith),
            same (p + 8) (ground arith),
            same (suc (p + 8)) (ground arith),
            body,
          )
          (elim (Bool-cases (ltb len (p + 10 + 4))) [
            | inl over ↦ rw over
            | inr fits ↦ rw (
              fits,
              same (p + 10) (ground arith),
              same (suc (p + 10)) (ground arith),
              same (suc (suc (p + 10))) (ground arith),
              same (suc (suc (suc (p + 10)))) (ground arith),
            )
          ])
  ]

  find_answer-Agree : (f n p : ℕ) → find_answer m len f n p ≡ find_answer m' len f n p
  unfolding find_answer
  find_answer-Agree f zero p = refl
  find_answer-Agree f (suc n) p = rw (dns_skip_name-Agree f p) (
      >>=-cong (dns_skip_name m' len f p) _ _ (λ q.
        rw (read_answer-Agree q) (pick (read_answer m' len q) (λ q. find_answer-Agree f n q))))
    where
      pick :
          (a : Answer)
          → ((q : ℕ) → find_answer m len f n q ≡ find_answer m' len f n q)
          → (elim a [
            | address ip ↦ value ip
            | next_at after ↦ find_answer m len f n after
            | truncated ↦ malformed
          ])
            ≡ (elim a [
              | address ip ↦ value ip
              | next_at after ↦ find_answer m' len f n after
              | truncated ↦ malformed
            ])
      pick (address ip) h = refl
      pick (next_at q) h = h q
      pick truncated h = refl

  -- On two buffers that agree on the first `len` bytes, with `len` below 2^16, `dns_parse_reply`
  -- gives the same result for length `len`: no byte past the message is used.
  pub dns_parse_reply-Agree : (f : ℕ) → dns_parse_reply f m len ≡ dns_parse_reply f m' len
  unfolding dns_parse_reply
  dns_parse_reply-Agree f = elim (Bool-cases (ltb len 12)) [
    | inl short ↦ rw short
    | inr long ↦ rw (
      long,
      same 2 (ground arith),
      same 3 (ground arith),
      same 4 (ground arith),
      same 5 (ground arith),
      same 6 (ground arith),
      same 7 (ground arith),
      skip_questions-Agree f (from_be16 m' 4) 12,
      >>=-cong (skip_questions m' len f (from_be16 m' 4) 12) (find_answer m len f (from_be16 m' 6))
          (find_answer m' len f (from_be16 m' 6)) (λ q. find_answer-Agree f (from_be16 m' 6) q),
    )
  ]
