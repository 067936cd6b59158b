-- ===== src/Tty/Scroll.antt =====
-- What a write to a console changes on the screen: src/drivers/tty/tty.c. The screen is read through
-- `TTY_POS`, as `print_tty` copies it.
use nupkux.Base.{
  ℕ, ◌+◌, ◌-◌, ◌*◌, ◌%◌, ◌^◌, ◌≤◌, ◌<◌, ◌≡◌, ◌≢◌, refl, ltb, leb, if◌then◌else◌, List, length,
  get_or, false, ◌&&◌, arith, ◌⊎◌, ◌>>=◌, ap,
}
use native.Mathlib.Decide.{dec_lt}
use nupkux.Tty.State.{Cursor, Tty, tty_line, tty_pos, blank}
use nupkux.Tty.Write.{
  plain_byte, wrap_line, scrolled, scroll, write_byte, escape_byte, count_escape, label,
}
use nupkux.Tty.Bounds.Stream.{Late}
use nupkux.Tty.Bounds.Valid.{
  IsTty, add_int_small, sub_int_small, ge_int_small, tty_line-lt, ring_small, cell_in_ring,
}

-- The cell that the screen shows at a row and a column.
abbrev pub cell : Tty → ℕ → ℕ → ℕ
cell t row column = get_or t.mem (tty_pos t column row) 0

-- `memsetw` writes the cells of its range and no other.
record Sets (mem : List ℕ) (pos value count : ℕ) (mem' : List ℕ) : Type 0 where
  same_length : length mem' ≡ length mem
  cells :
      (j : ℕ)
      → get_or mem' j 0
        ≡ (if leb pos j && ltb j (pos + count) then value % 2 ^ 16 else get_or mem j 0)

-- The line of a visible row is the sum round the ring.
tty_line_lem :
    (t : Tty)
    → IsTty t
    → (row : ℕ) → row < t.height
    → (tty_line t row ≡ t.scrln + row) × (t.scrln + row < t.memlines)
      ⊎ (tty_line t row + t.memlines ≡ t.scrln + row) × (t.memlines ≤ t.scrln + row)
unfolding tty_line
tty_line_lem t v row h = ground (
  arith,
  add_int_small t.scrln row,
  ge_int_small (t.scrln + row) t.memlines,
  sub_int_small (t.scrln + row) t.memlines,
)

pub tty_pos_lem :
    (t : Tty)
    → IsTty t
    → (column row : ℕ) → row < t.height
    → column < t.width
    → tty_pos t column row ≡ t.width * tty_line t row + column
unfolding tty_pos
tty_pos_lem t v column row h k = omega (
  arith,
  cell_in_ring (tty_line t row) column 1 t.width t.memlines (tty_line-lt v row h) (omega arith),
  ring_small t.width t.memlines v.wide.1 v.ring.1,
)

-- Cells of different lines or columns are different.
pub cell-ne : (w l m x y : ℕ) → x < w → y < w → w * l + x ≡ w * m + y → (l ≡ m) × (x ≡ y)
cell-ne w l m x y h k e = (lines, grind (arith, lines))
  where
    lines : l ≡ m
    lines = elim (dec_lt l m) [
      | yes p ↦ absurd (grind arith)
      | no p ↦ elim (dec_lt m l) [ yes q ↦ absurd (grind arith) | no q ↦ omega arith ]
    ]

-- Different rows show different lines.
pub tty_line-ne :
    (t : Tty)
    → IsTty t
    → (row row' : ℕ) → row < row'
    → row' < t.height
    → tty_line t row ≢ tty_line t row'
tty_line-ne t v row row' h k = ground (arith, tty_line_lem t v row, tty_line_lem t v row' k)

-- The place of a cell depends on the sizes and the first visible line alone.
pub tty_pos_same :
    (t : Tty) (mem' : List ℕ) (c : Cursor) (column row : ℕ)
    → tty_pos (record t { mem = mem'; cursor = c }) column row ≡ tty_pos t column row
unfolding tty_pos tty_line
tty_pos_same t mem' c column row = refl

tty_line_same :
    (t : Tty) (c : Cursor) (row : ℕ) → tty_line (record t { cursor = c }) row ≡ tty_line t row
unfolding tty_line
tty_line_same t c row = refl

abbrev origin : Cursor
origin = record { x = 0; y = 0 }

-- The screen of `t'` is that of `t` one row further down, with a blank last row.
pub record Shifted (t t' : Tty) : Type 0 where
  pub moved :
      (row column : ℕ)
      → row + 1 < t.height
      → column < t.width
      → cell t' row column ≡ cell t (row + 1) column
  pub last : (column : ℕ) → column < t.width → cell t' (t.height - 1) column ≡ blank t % 2 ^ 16
  pub at : t'.cursor ≡ record { x = t.cursor.x; y = t.height - 1 }

module _ (t : Tty) (v : Late t) (bottom : t.cursor.y ≡ t.height) (left : t.cursor.x < t.width) where
  s : Tty
  s = scrolled t

pub write_plain :
    (t : Tty) (c : ℕ)
    → t.is_esc ≡ false
    → write_byte t c ≡ (plain_byte t c (label c) >>= λ t'. scroll (wrap_line t'))
unfolding write_byte
write_plain t c idle =
    ap
      (λ b. (if b then (escape_byte t c >>= count_escape) else plain_byte t c (label c)) >>= λ t'.
        scroll (wrap_line t'))
      idle
