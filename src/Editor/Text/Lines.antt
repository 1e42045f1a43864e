-- ===== src/Editor/Text/Lines.antt =====
-- Lines and columns, and the moves between lines.
use gecko_os_mac_compatabili.Common.{ℕ, zero, suc, ◌+◌, ◌-◌, ◌≤◌, ◌≡◌, if◌then◌else◌, arith}
use gecko_os_mac_compatabili.Editor.Text.{
  Editor, is_newline, skip_lines, ed_line_start, ed_offset_to_line, ed_offset_to_col, line_rest,
  ed_line_len,
}

skip_lines-bounds :
    (k : ℕ) (b : ℕ → ℕ) (n pos : ℕ)
    → (pos ≤ skip_lines k b n pos) × (skip_lines k b n pos ≤ pos + k)
unfolding skip_lines
skip_lines-bounds zero b n pos = (omega arith, omega arith)
skip_lines-bounds (suc k) b zero pos = (omega arith, omega arith)
skip_lines-bounds (suc k) b (suc n) pos =
    let next : ℕ = if is_newline (b pos) then n else suc n in
    let (low, high) = skip_lines-bounds k b next (suc pos) in (omega arith, omega arith)

line_rest-bound : (k : ℕ) (b : ℕ → ℕ) (pos : ℕ) → line_rest k b pos ≤ k
unfolding line_rest
line_rest-bound zero b pos = omega arith
line_rest-bound (suc k) b pos = ground (arith, line_rest-bound k b (suc pos))

-- The cursor is in line `n`, in column `c`, within the text.
pub record IsAt (s : Editor) (n c : ℕ) : Type 0 where
  pub line : ed_offset_to_line s s.cur ≡ n
  pub col : ed_offset_to_col s s.cur ≡ c
  pub inside : s.cur ≤ s.len

pub line-inside : (s : Editor) (n : ℕ) → ed_line_start s n + ed_line_len s n ≤ s.len
unfolding ed_line_start ed_line_len
line-inside s n = omega (
  arith,
  (skip_lines-bounds s.len s.buf n 0).1,
  line_rest-bound (s.len - skip_lines s.len s.buf n 0) s.buf (skip_lines s.len s.buf n 0),
)
