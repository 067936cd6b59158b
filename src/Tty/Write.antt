-- ===== src/Tty/Write.antt =====
-- `do_tty_write` of src/drivers/tty/tty.c: one turn of its loop for a byte, and the loop. The copy of
-- the visible lines to the video memory at its end, `print_tty`, leaves the console as it is.
use nupkux.Base.{
  ℕ, ◌+◌, ◌-◌, ◌*◌, ◌/◌, ◌%◌, ◌^◌, ltb, leb, ◌==◌, if◌then◌else◌, List, [], ◌∷◌, replicate, set,
  Bool, true, false, not, ◌&&◌, ◌||◌, Option, some, ◌>>=◌,
}
use nupkux.Tty.State.{
  Tty, tty_escape_len, to_int, to_char, add_int, sub_int, ge_int, tty_pos, fill_cells, put_cell,
  blank,
}
use nupkux.Tty.Escape.{is_digit, tty_interpret_escape}
use Prim.Native.Nat.{bit_or}

-- `TTY_ESCAPE_END` and `TTY_ESCAPE_CHR`; a byte from 128 on is a negative `char`.
abbrev pub is_escape_end : ℕ → Bool
is_escape_end c = ltb 0x40 c && ltb c 0x7E

abbrev pub is_escape_chr : ℕ → Bool
is_escape_chr c = is_escape_end c || c == b';' || c == b'?' || is_digit c

abbrev pub at_column : Tty → ℕ → Tty
at_column t x = record t { cursor = record { x = x; y = t.cursor.y } }

abbrev pub at_row : Tty → ℕ → Tty
at_row t y = record t { cursor = record { x = t.cursor.x; y = y } }

-- `cursor.y++`
abbrev pub next_row : Tty → Tty
next_row t = at_row t (to_char (t.cursor.y + 1))

-- The branch `if (atty->is_esc)`, without `esc_ind++`.
unfoldable pub escape_byte : Tty → ℕ → Option Tty
escape_byte t c =
    if t.esc_ind == 0
    then some (record t { is_esc = t.is_esc && c == b'[' })
    else if leb tty_escape_len t.esc_ind || not (is_escape_chr c)
    then some (record t { is_esc = false })
    else if is_escape_end c
    then tty_interpret_escape
        (record t { escape_seq = set t.escape_seq t.esc_ind c; is_esc = false })
    else some (record t { escape_seq = set t.escape_seq t.esc_ind c })

-- `esc_ind++`
unfoldable pub count_escape : Tty → Option Tty
count_escape t = some (record t { esc_ind = (t.esc_ind + 1) % 2 ^ 16 })

-- `if (atty->cursor.x) atty->cursor.x--;`
unfoldable pub step_back : Tty → Tty
step_back t = if t.cursor.x == 0 then t else at_column t (t.cursor.x - 1)

-- `\b`
unfoldable pub backspace : Tty → Option Tty
backspace t =
    let t' = step_back t in
    put_cell t' (tty_pos t' (to_int t'.cursor.x) (to_int t'.cursor.y)) (blank t')

-- `\t`: the column is rounded up to the next multiple of 8 (`& 0xF8`).
unfoldable pub tabulator : Tty → Tty
tabulator t =
    let x = add_int (to_int t.cursor.x) 8 % 256 / 8 * 8 in
    if ge_int (to_int x) t.width then at_column t (to_char (sub_int t.width 1)) else at_column t x

-- Any other byte is stored in the current colours, and `cursor.x++`.
unfoldable pub print_byte : Tty → ℕ → Option Tty
print_byte t c =
    put_cell t (tty_pos t (to_int t.cursor.x) (to_int t.cursor.y)) (bit_or t.attr c) >>= λ t'.
    some (at_column t' (to_char (t.cursor.x + 1)))

-- The labels of the `switch` on a byte that belongs to no escape sequence.
pub data Label : Type 0 where
  nul back tab newline feed return start_escape printed : Label

unfoldable pub label : ℕ → Label
label c =
    if c == 0
    then nul
    else if c == 8
    then back
    else if c == 9
    then tab
    else if c == 10
    then newline
    else if c == 11 || c == 12
    then feed
    else if c == 13
    then return
    else if c == 27
    then start_escape
    else printed

-- `case '\e'`: the buffer is cleared, and starts with the bracket.
abbrev pub begin_escape : Tty → Tty
begin_escape t = record t {
  is_esc = true;
  esc_ind = 0;
  escape_seq = b'[' ∷ replicate (tty_escape_len - 1) 0;
}

unfoldable pub plain_byte : Tty → ℕ → Label → Option Tty
plain_byte t c nul = some t
plain_byte t c back = backspace t
plain_byte t c tab = some (tabulator t)
plain_byte t c newline = some (next_row (at_column t 0))
plain_byte t c feed = some (next_row t)
plain_byte t c return = some (at_column t 0)
plain_byte t c start_escape = some (begin_escape t)
plain_byte t c printed = print_byte t c

-- `if (atty->cursor.x >= atty->width)`
unfoldable pub wrap_line : Tty → Tty
wrap_line t = if ge_int (to_int t.cursor.x) t.width then next_row (at_column t 0) else t

-- `if (++atty->scrln == atty->memlines) atty->scrln = 0;`
unfoldable pub next_scrln : Tty → ℕ
next_scrln t = let line = (t.scrln + 1) % 2 ^ 16 in if line == t.memlines then 0 else line

-- `cursor.y--`, and the first visible line moves on.
unfoldable pub scrolled : Tty → Tty
unfolding next_scrln
scrolled t = record t {
  cursor = record { x = t.cursor.x; y = to_char (t.cursor.y + 255) };
  scrln = next_scrln t;
  viewln = next_scrln t;
}

-- `if (atty->cursor.y == atty->height)`: scroll, and blank the last line.
unfoldable pub scroll : Tty → Option Tty
scroll t =
    let t' = scrolled t in
    if to_int t.cursor.y == t.height
    then fill_cells t' (tty_pos t' 0 (sub_int t'.height 1)) (blank t') t'.width
    else some t

-- One turn of the loop of `do_tty_write`.
unfoldable pub write_byte : Tty → ℕ → Option Tty
write_byte t c =
    (if t.is_esc then (escape_byte t c >>= count_escape) else plain_byte t c (label c)) >>= λ t'.
    scroll (wrap_line t')

unfoldable pub write_loop : Tty → List ℕ → Option Tty
write_loop t [] = some t
write_loop t (c ∷ buffer) = write_byte t c >>= λ t'. write_loop t' buffer

-- `do_tty_write` on a console: the view goes to the end first. It returns the size of the buffer, and
-- -EINVAL where the handle is null.
unfoldable pub do_tty_write : Tty → List ℕ → Option Tty
do_tty_write t buffer = write_loop (record t { viewln = t.scrln }) buffer
