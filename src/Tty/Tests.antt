-- ===== src/Tty/Tests.antt =====
-- A console of two rows of four columns, over a ring of three lines: src/drivers/tty/tty.c.
use nupkux.Base.{
  ℕ, ◌-◌, ◌<◌, ◌^◌, ◌≡◌, ◌≢◌, refl, List, [], ◌∷◌, ◌++◌, replicate, false, some, arith, ◌⊎◌,
}
use nupkux.Tty.State.{Tty, tty_pos, put_cell, to_int, add_int, sub_int, ge_int, gt_int, tty_line}
use nupkux.Tty.Escape.{
  atoi, param_or_one, command, run_command, clamp, two_numbers, cursor_position,
  tty_interpret_escape,
}
use nupkux.Tty.Write.{
  label, plain_byte, print_byte, escape_byte, count_escape, wrap_line, scroll, write_byte,
  write_loop, do_tty_write,
}
use nupkux.Tty.Bounds.Valid.{IsTty}
use nupkux.Tty.Bounds.Stream.{Ready, do_tty_write-IsTty}
use nupkux.Tty.Scroll.{cell}
use nupkux.Tty.Print.{print_byte_lem}
use nupkux.CString.{strchr}

abbrev small : Tty
small = record {
  is_esc = false;
  show_cursor = false;
  echo = false;
  width = 4;
  height = 2;
  memlines = 3;
  viewln = 0;
  scrln = 0;
  esc_ind = 0;
  attr = 0x700;
  mem = replicate 12 0;
  cursor = record { x = 0; y = 0 };
  saved = record { x = 0; y = 0 };
  escape_seq = replicate 128 0;
}

abbrev at_bottom : Tty
at_bottom = record small { cursor = record { x = 2; y = 1 } }

small-IsTty : IsTty small
small-IsTty = omega arith

small-Ready : Ready false 0 small
small-Ready = record { valid = omega arith; escape = λ e. cc }

-- "a\nb\nc" leaves "b" and "c" on the screen.
abbrev three_lines : List ℕ
three_lines = b'a' ∷ 10 ∷ b'b' ∷ 10 ∷ b'c' ∷ []

-- ESC [ 2 ; 1 H x
abbrev goto : List ℕ
goto = 27 ∷ b'[' ∷ b'2' ∷ b';' ∷ b'1' ∷ b'H' ∷ b'x' ∷ []

-- The first number of ESC [ n ; m H is taken for the column: the byte stands in column 1, row 0.
goto_column_first :
    do_tty_write small goto
    ≡ some (record small {
      esc_ind = 5;
      mem = 0 ∷ 0x778 ∷ replicate 10 0;
      cursor = record { x = 2; y = 0 };
      escape_seq = b'[' ∷ b'2' ∷ b';' ∷ b'1' ∷ 0 ∷ replicate 123 0;
    })
unfolding do_tty_write write_loop write_byte plain_byte print_byte escape_byte count_escape
    wrap_line scroll label tty_pos put_cell tty_interpret_escape command run_command cursor_position
    two_numbers param_or_one atoi strchr clamp to_int add_int sub_int ge_int gt_int tty_line
goto_column_first = refl

-- 4294967294, that is 2 ^ 32 - 2
atoi_overflows :
    atoi (b'4' ∷ b'2' ∷ b'9' ∷ b'4' ∷ b'9' ∷ b'6' ∷ b'7' ∷ b'2' ∷ b'9' ∷ b'4' ∷ []) ≡ 2 ^ 32 - 2
unfolding atoi
atoi_overflows = refl

do_tty_write-IsTty_example :
    (t' : Tty) × (do_tty_write small (three_lines ++ goto) ≡ some t') × IsTty t'
do_tty_write-IsTty_example =
    do_tty_write-IsTty small (three_lines ++ goto) false 0 small-Ready (omega arith)

print_byte_lem_example :
    (t' : Tty) × (write_byte small b'a' ≡ some t')
    × (cell t' 0 0 ≡ 0x761)
    × ((row column : ℕ)
        → row < 2
        → column < 4
        → (row ≢ 0) ⊎ (column ≢ 0)
        → cell t' row column ≡ cell small row column)
    × (t'.cursor ≡ record { x = 1; y = 0 })
unfolding label
print_byte_lem_example = print_byte_lem small small-IsTty b'a' refl refl (omega arith)
