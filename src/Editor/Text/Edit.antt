-- ===== src/Editor/Text/Edit.antt =====
-- Insertion and removal, character by character.
use gecko_os_mac_compatabili.Common.{
  ℕ, zero, suc, ◌+◌, ◌-◌, ◌≤◌, ◌<◌, ◌≡◌, ◌≢◌, refl, ap, ◌∙◌, true, false, leb, ltb, ◌==◌, arith,
  Bool-cases, inl, inr,
}
use gecko_os_mac_compatabili.Editor.Text.{
  Editor, store, shift_up, ed_insert, shift_down, ed_backspace, max_filesize,
}

store_same : (i c j : ℕ) (b : ℕ → ℕ) → j ≡ i → store i c b j ≡ c
store_same i c j b h = ground (arith, h)

store_other : (i c j : ℕ) (b : ℕ → ℕ) → j ≢ i → store i c b j ≡ b j
store_other i c j b h = ground (arith, h)

-- The characters from `low` to the one before `i` move up by one, those after `i` stay.
shift_up_lem :
    (k i low : ℕ) (b : ℕ → ℕ) (j : ℕ)
    → i ≡ low + k
    → ((j ≤ low → shift_up k i b j ≡ b j) × (i < j → shift_up k i b j ≡ b j))
      × ((j' : ℕ) → j ≡ suc j' → low ≤ j' → j ≤ i → shift_up k i b j ≡ b j')
unfolding shift_up
shift_up_lem zero i low b j e = ((λ h. refl, λ h. refl), λ j' p q r. absurd (omega arith))
shift_up_lem (suc k) i low b j e =
    let rest = shift_up_lem k (i - 1) low (store i (b (i - 1)) b) j (omega arith) in
    (
      (
        λ h. rest.0.0 h ∙ store_other i (b (i - 1)) j b (λ p. absurd (omega arith)),
        λ h. rest.0.1 (omega arith) ∙ store_other i (b (i - 1)) j b (λ p. absurd (omega arith)),
      ),
      λ j' p q r. elim (Bool-cases (j == i)) [
        | inl top ↦
            let same : j ≡ i = ground (arith, top) in
            rest.0.1 (omega arith) ∙ store_same i (b (i - 1)) j b same ∙ ap b (omega arith)
        | inr lower ↦
            rest.1 j' p q (ground (arith, lower))
            ∙ store_other i (b (i - 1)) j' b (λ t. absurd (omega arith))
      ],
    )

-- The characters after `i` up to index `i + k` move down by one.
shift_down_lem :
    (k i : ℕ) (b : ℕ → ℕ) (j : ℕ)
    → (j < i → shift_down k i b j ≡ b j) × (i ≤ j → j < i + k → shift_down k i b j ≡ b (suc j))
unfolding shift_down
shift_down_lem zero i b j = (λ h. refl, λ p q. absurd (omega arith))
shift_down_lem (suc k) i b j =
    let rest = shift_down_lem k (suc i) (store i (b (suc i)) b) j in
    (
      λ h. rest.0 (omega arith) ∙ store_other i (b (suc i)) j b (λ p. absurd (omega arith)),
      λ p q. elim (Bool-cases (j == i)) [
        | inl here ↦
            let same : j ≡ i = ground (arith, here) in
            rest.0 (omega arith) ∙ store_same i (b (suc i)) j b same ∙ ap b (omega arith)
        | inr later ↦
            rest.1 (ground (arith, later)) (omega arith)
            ∙ store_other i (b (suc i)) (suc j) b (λ t. absurd (omega arith))
      ],
    )

-- `t` is `s` with the character `c` put in before the cursor.
pub record Inserted (c : ℕ) (s t : Editor) : Type 0 where
  pub longer : t.len ≡ suc s.len
  pub after : t.cur ≡ suc s.cur
  pub low : (j : ℕ) → j < s.cur → t.buf j ≡ s.buf j
  pub here : t.buf s.cur ≡ c
  pub high : (j : ℕ) → s.cur ≤ j → j < s.len → t.buf (suc j) ≡ s.buf j

pub ed_insert_lem :
    (c : ℕ) (s : Editor)
    → s.cur ≤ s.len
    → (s.len < 4095 → Inserted c s (ed_insert c s)) × (4095 ≤ s.len → ed_insert c s ≡ s)
unfolding ed_insert
ed_insert_lem c s h = (
  λ room.
      let fits : leb (max_filesize - 1) s.len ≡ false = ground (arith, room) in
      rw (fits, ed_insert) (inserted room),
  λ full.
      let over : leb (max_filesize - 1) s.len ≡ true = ground (arith, full) in
      rw (over, ed_insert) refl,
)
  where
    moved : ℕ → ℕ
    moved = shift_up (s.len - s.cur) s.len s.buf

    put_in :
        (j : ℕ) → j ≢ s.cur → j < suc s.len → store (suc s.len) 0 (store s.cur c moved) j ≡ moved j
    put_in j n l =
        store_other (suc s.len) 0 j (store s.cur c moved) (λ e. absurd (omega arith))
        ∙ store_other s.cur c j moved n

    inserted :
        s.len < 4095
        → Inserted c s (record s {
          buf = store (suc s.len) 0 (store s.cur c moved);
          cur = suc s.cur;
          len = suc s.len;
          dirty = true;
        })
    inserted room = record {
      longer = refl;
      after = refl;
      low = λ j l.
          put_in j (λ e. absurd (omega arith)) (omega arith)
          ∙ (shift_up_lem (s.len - s.cur) s.len s.cur s.buf j (omega arith)).0.0 (omega arith);
      here =
          store_other (suc s.len) 0 s.cur (store s.cur c moved) (λ e. absurd (omega arith))
          ∙ store_same s.cur c s.cur moved refl;
      high = λ j l r.
          put_in (suc j) (λ e. absurd (omega arith)) (omega arith)
          ∙ (shift_up_lem (s.len - s.cur) s.len s.cur s.buf (suc j) (omega arith)).1 j refl l
              (omega arith);
    }

-- `t` is `s` without the character before the cursor, which was at index `p`.
pub record Removed (p : ℕ) (s t : Editor) : Type 0 where
  pub shorter : suc t.len ≡ s.len
  pub before : t.cur ≡ p
  pub low : (j : ℕ) → j < p → t.buf j ≡ s.buf j
  pub high : (j : ℕ) → p ≤ j → suc j < s.len → t.buf j ≡ s.buf (suc j)

pub ed_backspace_lem :
    (s : Editor)
    → s.cur ≤ s.len
    → (s.cur ≡ 0 → ed_backspace s ≡ s) × ((p : ℕ) → s.cur ≡ suc p → Removed p s (ed_backspace s))
unfolding ed_backspace
ed_backspace_lem s h = (
  λ first. let stay : (s.cur == 0) ≡ true = ground (arith, first) in rw (stay, ed_backspace) refl,
  λ p e. let go : (s.cur == 0) ≡ false = ground (arith, e) in rw (go, ed_backspace) (removed p e),
)
  where
    moved : ℕ → ℕ
    moved = shift_down (s.len - 1 - (s.cur - 1)) (s.cur - 1) s.buf

    removed :
        (p : ℕ)
        → s.cur ≡ suc p
        → Removed p s (record s {
          buf = store (s.len - 1) 0 moved;
          cur = s.cur - 1;
          len = s.len - 1;
          dirty = true;
        })
    removed p e = record {
      shorter = omega arith;
      before = omega arith;
      low = λ j l.
          store_other (s.len - 1) 0 j moved (λ q. absurd (omega arith))
          ∙ (shift_down_lem (s.len - 1 - (s.cur - 1)) (s.cur - 1) s.buf j).0 (omega arith);
      high = λ j l r.
          store_other (s.len - 1) 0 j moved (λ q. absurd (omega arith))
          ∙ (shift_down_lem (s.len - 1 - (s.cur - 1)) (s.cur - 1) s.buf j).1 (omega arith)
              (omega arith);
    }

-- With the cursor in a text of fewer than 4095 characters, a character that is typed and removed
-- leaves the length, the cursor and every character of the text as before.
pub ed_backspace-ed_insert :
    (c : ℕ) (s : Editor)
    → s.cur ≤ s.len
    → s.len < 4095
    → ((ed_backspace (ed_insert c s)).len ≡ s.len)
      × ((ed_backspace (ed_insert c s)).cur ≡ s.cur)
      × ((j : ℕ) → j < s.len → (ed_backspace (ed_insert c s)).buf j ≡ s.buf j)
ed_backspace-ed_insert c s h room =
    let typed : Inserted c s (ed_insert c s) = (ed_insert_lem c s h).0 room in
    let gone : Removed s.cur (ed_insert c s) (ed_backspace (ed_insert c s)) =
      (ed_backspace_lem (ed_insert c s) (omega (arith, typed.longer, typed.after))).1 s.cur
        typed.after in
    (
      omega (arith, gone.shorter, typed.longer),
      gone.before,
      λ j l. elim (Bool-cases (ltb j s.cur)) [
        | inl low ↦ gone.low j (ground (arith, low)) ∙ typed.low j (ground (arith, low))
        | inr high ↦
            gone.high j (ground (arith, high)) (omega (arith, typed.longer))
            ∙ typed.high j (ground (arith, high)) l
      ],
    )
