-- ===== src/Memory/Physical/Find.antt =====
-- `find_first_free_blocks` returns the least run of free blocks, and -1 only if there is none.
use gecko_os_mac_compatabili.Common.{
  ℕ, zero, suc, ◌+◌, ◌-◌, ◌*◌, ◌/◌, ◌%◌, ◌^◌, ◌≤◌, ◌<◌, ◌≡◌, refl, ap, ◌∙◌, sym, subst, true, false,
  Option, none, some, bit_and, arith, ◌==◌, if◌then◌else◌, Bool-cases, inl, inr, ==_iff,
}
use native.Mathlib.Decide.{dec_lt}
use gecko_os_mac_compatabili.Memory.Physical.{
  PhysicalMemory, all_ones, block_free, free_count, find_in_word, find_in_map,
  find_first_free_blocks,
}
use gecko_os_mac_compatabili.Memory.Physical.Blocks.{block_free-word, block_free-all_ones}

-- The `n` blocks from `b` on are free.
abbrev pub AllFree : (ℕ → ℕ) → ℕ → ℕ → Type 0
AllFree m n b = (c : ℕ) → b ≤ c → c < b + n → block_free m c ≡ true

free_count-le : (m : ℕ → ℕ) (n b : ℕ) → free_count m n b ≤ n
unfolding free_count
free_count-le m zero b = omega arith
free_count-le m (suc n) b = ground (arith, free_count-le m n (b + 1))

free_count-AllFree : (m : ℕ → ℕ) (n b : ℕ) → free_count m n b ≡ n → AllFree m n b
unfolding free_count
free_count-AllFree m zero b e c p q = absurd (omega arith)
free_count-AllFree m (suc n) b e c p q =
    ground (arith, λ (h : free_count m n (b + 1) ≡ n). free_count-AllFree m n (b + 1) h c)

AllFree-free_count : (m : ℕ → ℕ) (n b : ℕ) → AllFree m n b → free_count m n b ≡ n
unfolding free_count
AllFree-free_count m zero b h = refl
AllFree-free_count m (suc n) b h =
    rw (h b (omega arith) (omega arith))
      (ap suc (AllFree-free_count m n (b + 1) (λ c p q. h c (omega arith) (omega arith))))

-- The least start in `lo .. hi` of a run of `n` free blocks, if there is one.
abbrev pub Least : (ℕ → ℕ) → ℕ → ℕ → ℕ → Option ℕ → Type 0
Least m n lo hi none = (c : ℕ) → lo ≤ c → c < hi → ¬ (AllFree m n c)
Least m n lo hi (some b) =
    (lo ≤ b) × (b < hi) × AllFree m n b × ((c : ℕ) → lo ≤ c → c < b → ¬ (AllFree m n c))

-- Starts that fail may be skipped.
Least-skip :
    (m : ℕ → ℕ) (n lo mid hi : ℕ) (o : Option ℕ)
    → lo ≤ mid
    → ((c : ℕ) → lo ≤ c → c < mid → ¬ (AllFree m n c))
    → Least m n mid hi o
    → Least m n lo hi o
Least-skip m n lo mid hi none l h r =
    λ c p q. elim (dec_lt c mid) [ yes below ↦ h c p below | no above ↦ r c (omega arith) q ]
Least-skip m n lo mid hi (some b) l h r = (
  omega (arith, r.0),
  r.1,
  r.2,
  λ c p q. elim (dec_lt c mid) [ yes below ↦ h c p below | no above ↦ r.3 c (omega arith) q ],
)

Least-here : (m : ℕ → ℕ) (n lo hi : ℕ) → lo < hi → AllFree m n lo → Least m n lo hi (some lo)
Least-here m n lo hi h free = (omega arith, h, free, λ c p q. absurd (omega arith))

-- A run that is long enough starts at a free block.
not-AllFree : (m : ℕ → ℕ) (n b : ℕ) → 0 < n → block_free m b ≡ false → ¬ (AllFree m n b)
not-AllFree m n b pos e free = cc (free b (omega arith) (omega arith))

short-not-AllFree : (m : ℕ → ℕ) (n b : ℕ) → (free_count m n b == n) ≡ false → ¬ (AllFree m n b)
short-not-AllFree m n b e free = ground (arith, AllFree-free_count m n b free)

one_start :
    (m : ℕ → ℕ) (n b : ℕ) → ¬ (AllFree m n b) → (c : ℕ) → b ≤ c → c < b + 1 → ¬ (AllFree m n c)
one_start m n b h c p q free = h (subst (AllFree m n) (omega arith) free)

Least-next :
    (m : ℕ → ℕ) (n lo mid hi : ℕ) (o : Option ℕ)
    → mid ≡ lo + 1
    → Least m n mid hi o
    → ¬ (AllFree m n lo)
    → Least m n lo hi o
Least-next m n lo mid hi o e rest h =
    Least-skip m n lo mid hi o (omega arith) (λ c p q. one_start m n lo h c p (omega arith)) rest

find_in_word-Least :
    (m : ℕ → ℕ) (n i r j : ℕ)
    → 0 < n
    → j + r ≡ 32
    → Least m n (i * 32 + j) (i * 32 + 32) (find_in_word m n i r j)
unfolding find_in_word
find_in_word-Least m n i zero j pos e = λ c p q. absurd (omega arith)
find_in_word-Least m n i (suc r) j pos e =
    let b : ℕ = i * 32 + j in
    let skip : ¬ (AllFree m n b) → Least m n b (i * 32 + 32) (find_in_word m n i r (j + 1)) =
      Least-next m n b (i * 32 + (j + 1)) (i * 32 + 32) (find_in_word m n i r (j + 1)) (omega arith)
        (find_in_word-Least m n i r (j + 1) pos (omega arith)) in
    elim (Bool-cases (bit_and (m i) (2 ^ j) == 0)) [
      | inr used ↦
          rw used (skip (not-AllFree m n b pos (sym (block_free-word m i j (omega arith)) ∙ used)))
      | inl free ↦ elim (Bool-cases (free_count m n b == n)) [
        | inl long ↦
            rw (free, long)
              (Least-here m n b (i * 32 + 32) (omega arith)
                (free_count-AllFree m n b ((==_iff (free_count m n b) n).0 long)))
        | inr short ↦ rw (free, short) (skip (short-not-AllFree m n b short))
      ]
    ]

-- The answer within a word, or the search from the next word on.
abbrev or_else : Option ℕ → Option ℕ → Option ℕ
or_else (some b) rest = some b
or_else none rest = rest

Least-or_else :
    (m : ℕ → ℕ) (n lo mid hi : ℕ) (o rest : Option ℕ)
    → lo ≤ mid
    → mid ≤ hi
    → Least m n lo mid o
    → Least m n mid hi rest
    → Least m n lo hi (or_else o rest)
Least-or_else m n lo mid hi none rest l h p q = Least-skip m n lo mid hi rest l p q
Least-or_else m n lo mid hi (some b) rest l h p q = (p.0, omega (arith, p.1), p.2, p.3)

-- A word of ones holds no start.
full_word :
    (m : ℕ → ℕ) (n i : ℕ)
    → 0 < n
    → m i ≡ all_ones
    → (c : ℕ) → i * 32 ≤ c
    → c < i * 32 + 32
    → ¬ (AllFree m n c)
full_word m n i pos e c p q =
    not-AllFree m n c pos (
      ap (block_free m) {x = c} (omega arith)
      ∙ block_free-all_ones m i (c - i * 32) (omega arith) e)

find_in_map-Least :
    (m : ℕ → ℕ) (n r i k : ℕ)
    → 0 < n
    → i + r ≡ k
    → Least m n (i * 32) (k * 32) (find_in_map m n r i)
unfolding find_in_map
find_in_map-Least m n zero i k pos e = λ c p q. absurd (omega arith)
find_in_map-Least m n (suc r) i k pos e =
    let rest : Least m n (i * 32 + 32) (k * 32) (find_in_map m n r (i + 1)) =
      subst (λ (t : ℕ). Least m n t (k * 32) (find_in_map m n r (i + 1))) (omega arith)
        (find_in_map-Least m n r (i + 1) k pos (omega arith)) in
    let word : Least m n (i * 32) (i * 32 + 32) (find_in_word m n i 32 0) =
      subst (λ (t : ℕ). Least m n t (i * 32 + 32) (find_in_word m n i 32 0)) (omega arith)
        (find_in_word-Least m n i 32 0 pos refl) in
    elim (Bool-cases (m i == all_ones)) [
      | inl full ↦ rw full (
          Least-skip m n (i * 32) (i * 32 + 32) (k * 32) (find_in_map m n r (i + 1)) (omega arith)
            (full_word m n i pos ((==_iff (m i) all_ones).0 full)) rest)
      | inr mixed ↦ rw mixed (
          join (find_in_word m n i 32 0) (
            Least-or_else m n (i * 32) (i * 32 + 32) (k * 32) (find_in_word m n i 32 0)
              (find_in_map m n r (i + 1)) (omega arith) (omega arith) word rest))
    ]
  where
    join :
        (o : Option ℕ)
        → Least m n (i * 32) (k * 32) (or_else o (find_in_map m n r (i + 1)))
        → Least m n
            (i * 32)
            (k * 32)
            (elim o [ some b ↦ some b | none ↦ find_in_map m n r (i + 1) ])
    join none h = h
    join (some b) h = h

-- The result of the search read back from the `int32_t`.
abbrev pub decode : ℕ → Option ℕ
decode w = if w == all_ones then none else some w

decode-Least :
    (m : ℕ → ℕ) (n hi : ℕ) (o : Option ℕ)
    → hi ≤ 2 ^ 31
    → Least m n 0 hi o
    → Least m n 0 hi (decode (elim o [ some b ↦ b % 2 ^ 32 | none ↦ all_ones ]))
decode-Least m n hi none h l = l
decode-Least m n hi (some b) h l =
    let small : b % 2 ^ 32 ≡ b = omega (arith, l.1) in rw (small, fits) l
  where
    fits : (b == all_ones) ≡ false
    fits = ground (arith, l.1)

-- `find_first_free_blocks` on a map of at most 2^31 blocks and a request of at least one: its
-- result is the least block from which `num_blocks` blocks are free, among the blocks that the
-- whole words of the map describe, and it is -1 exactly if there is none.
pub find_first_free_blocks-Least :
    (s : PhysicalMemory) (n : ℕ)
    → 0 < n
    → s.max_blocks ≤ 2 ^ 31
    → Least s.memory_map n 0 (s.max_blocks / 32 * 32) (decode (find_first_free_blocks s n))
unfolding find_first_free_blocks
find_first_free_blocks-Least s n pos h = rw positive (
    decode-Least s.memory_map n (s.max_blocks / 32 * 32)
      (find_in_map s.memory_map n (s.max_blocks / 32) 0) (omega arith)
      (find_in_map-Least s.memory_map n (s.max_blocks / 32) 0 (s.max_blocks / 32) pos
        (omega arith)))
  where
    positive : (n == 0) ≡ false
    positive = ground arith
