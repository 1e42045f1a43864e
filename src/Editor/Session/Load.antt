-- ===== src/Editor/Session/Load.antt =====
-- Loading a file ends: the rounds are enough.
use gecko_os_mac_compatabili.Common.{
  ℕ, zero, suc, ◌+◌, ◌-◌, ◌≤◌, ◌<◌, ◌≡◌, ◌⊎◌, inl, inr, refl, true, List, [], ◌∷◌, ltb, arith,
  Bool-cases, length,
}
use gecko_os_mac_compatabili.Editor.Text.{Editor, store, max_filesize}
use gecko_os_mac_compatabili.Editor.Session.{load_chunk, load_rounds}

load_chunk-grows : (cs : List ℕ) (s : Editor) → s.len ≤ (load_chunk cs s).len
unfolding load_chunk
load_chunk-grows [] s = omega arith
load_chunk-grows (c ∷ cs) s =
    ground (arith, load_chunk-grows cs (record s { buf = store s.len c s.buf; len = suc s.len }))

load_chunk-takes :
    (c : ℕ) (cs : List ℕ) (s : Editor)
    → ltb s.len (max_filesize - 1) ≡ true
    → s.len < (load_chunk (c ∷ cs) s).len
unfolding load_chunk
load_chunk-takes c cs s fits =
    rw (fits, load_chunk)
      (omega (arith, load_chunk-grows cs (record s { buf = store s.len c s.buf; len = suc s.len })))

-- The text is full, or a read gave nothing.
abbrev Loaded : (ℕ → List ℕ) → Editor → Type 0
Loaded read t = (4095 ≤ t.len) ⊎ ((o : ℕ) × (read o ≡ []))

load_rounds-Loaded :
    (k : ℕ) (read : ℕ → List ℕ) (offset : ℕ) (s : Editor)
    → 4095 ≤ s.len + k
    → Loaded read (load_rounds k read offset s)
unfolding load_rounds
load_rounds-Loaded zero read offset s h = inl (omega arith)
load_rounds-Loaded (suc k) read offset s h = elim (Bool-cases (ltb s.len (max_filesize - 1))) [
  | inr full ↦ rw (full, load_rounds) (inl (ground (arith, full)))
  | inl fits ↦
      rw (fits, load_rounds)
        (chunk fits (read offset) refl (λ o t g. load_rounds-Loaded k read o t g))
]
  where
    chunk :
        ltb s.len (max_filesize - 1) ≡ true
        → (cs : List ℕ) → read offset ≡ cs
        → ((o : ℕ) (t : Editor) → 4095 ≤ t.len + k → Loaded read (load_rounds k read o t))
        → Loaded read (elim cs [
          | [] ↦ s
          | c ∷ cs ↦ load_rounds k read (offset + length (c ∷ cs)) (load_chunk (c ∷ cs) s)
        ])
    chunk fits [] e rec = inr (offset, e)
    chunk fits (c ∷ cs) e rec =
        rec (offset + length (c ∷ cs)) (load_chunk (c ∷ cs) s)
          (omega (arith, load_chunk-takes c cs s fits))
