-- ===== src/Memory/Heap/Move.antt =====
-- `memmove` copies, also when source and target overlap.
use gecko_os_mac_compatabili.Common.{
  ℕ, zero, suc, ◌+◌, ◌-◌, ◌≤◌, ◌<◌, ◌≡◌, ◌≢◌, refl, ap, ◌∙◌, ltb, ◌==◌, arith, Bool-cases, inl, inr,
}
use gecko_os_mac_compatabili.Memory.Heap.{write, memcpy, copy_down, memmove}

write_same : (a v b : ℕ) (m : ℕ → ℕ) → b ≡ a → write a v m b ≡ v
write_same a v b m h = ground (arith, h)

write_other : (a v b : ℕ) (m : ℕ → ℕ) → b ≢ a → write a v m b ≡ m b
write_other a v b m h = ground (arith, h)

-- At address `j` after the copy of `n` bytes upwards.
memcpy-upwards :
    (n dest src : ℕ) (m : ℕ → ℕ) (j : ℕ)
    → dest < src
    → (j < dest → memcpy dest src n m j ≡ m j)
      × ((i x : ℕ) → i < n → j ≡ dest + i → x ≡ src + i → memcpy dest src n m j ≡ m x)
unfolding memcpy
memcpy-upwards zero dest src m j h = (λ l. refl, λ i x l e f. absurd (omega arith))
memcpy-upwards (suc n) dest src m j h =
    let rest = memcpy-upwards n (suc dest) (suc src) (write dest (m src) m) j (omega arith) in
    (
      λ l. rest.0 (omega arith) ∙ write_other dest (m src) j m (λ e. absurd (omega arith)),
      λ i x l e f. elim (Bool-cases (i == 0)) [
        | inl first ↦
            let here : j ≡ dest = ground (arith, first) in
            rest.0 (omega arith) ∙ write_same dest (m src) j m here ∙ ap m (ground (arith, first))
        | inr later ↦
            rest.1 (i - 1) x (ground (arith, later)) (ground (arith, later)) (ground (arith, later))
            ∙ write_other dest (m src) x m (λ g. absurd (omega arith))
      ],
    )

copy_down-downwards :
    (n dest src : ℕ) (m : ℕ → ℕ) (j : ℕ)
    → src ≤ dest
    → (dest + n ≤ j → copy_down dest src n m j ≡ m j)
      × ((i x : ℕ) → i < n → j ≡ dest + i → x ≡ src + i → copy_down dest src n m j ≡ m x)
unfolding copy_down
copy_down-downwards zero dest src m j h = (λ l. refl, λ i x l e f. absurd (omega arith))
copy_down-downwards (suc n) dest src m j h =
    let rest = copy_down-downwards n dest src (write (dest + n) (m (src + n)) m) j h in
    (
      λ l.
          rest.0 (omega arith)
          ∙ write_other (dest + n) (m (src + n)) j m (λ e. absurd (omega arith)),
      λ i x l e f. elim (Bool-cases (i == n)) [
        | inl last ↦
            let here : j ≡ dest + n = ground (arith, last) in
            rest.0 (omega arith)
            ∙ write_same (dest + n) (m (src + n)) j m here
            ∙ ap m (ground (arith, last))
        | inr earlier ↦
            rest.1 i x (ground (arith, earlier)) e f
            ∙ write_other (dest + n) (m (src + n)) x m (λ g. absurd (ground (arith, earlier)))
      ],
    )

-- For all addresses and lengths, overlapping or not, each byte of the target becomes what that
-- of the source was before.
pub memmove_lem :
    (dest src n i : ℕ) (m : ℕ → ℕ) → i < n → memmove dest src n m (dest + i) ≡ m (src + i)
unfolding memmove
memmove_lem dest src n i m l = elim (Bool-cases (ltb dest src)) [
  | inl below ↦
      rw (below, memmove)
        ((memcpy-upwards n dest src m (dest + i) (ground (arith, below))).1 i (src + i) l refl refl)
  | inr above ↦
      rw (above, memmove)
        ((copy_down-downwards n dest src m (dest + i) (ground (arith, above))).1 i (src + i) l refl
          refl)
]
