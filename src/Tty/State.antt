-- ===== src/Tty/State.antt =====
-- The state of a console, `struct _tty` of src/include/drivers/tty.h, and the accesses to its screen
-- memory. A `char` is the number of its bit pattern below 2 ^ 8, an `int` that of its bit pattern
-- below 2 ^ 32; signed overflow wraps.
use Prim.Native.Nat.{bit_or}
use nupkux.Base.{
  ℕ, zero, suc, ◌+◌, ◌-◌, ◌*◌, ◌%◌, ◌^◌, ltb, leb, if◌then◌else◌, List, replicate, Bool, false,
  Option, some, store, ◌>>=◌,
}

pub record Cursor : Type 0 where
  pub x : ℕ
  pub y : ℕ

-- `saved` is the field `_cursor`.
pub record Tty : Type 0 where
  pub is_esc : Bool
  pub show_cursor : Bool
  pub echo : Bool
  pub width : ℕ
  pub height : ℕ
  pub memlines : ℕ
  pub viewln : ℕ
  pub scrln : ℕ
  pub esc_ind : ℕ
  pub attr : ℕ
  pub mem : List ℕ
  pub cursor : Cursor
  pub saved : Cursor
  pub escape_seq : List ℕ

abbrev pub tty_escape_len : ℕ
tty_escape_len = 128

-- A `char` that is promoted to `int`, and an `int` that is stored in a `char`.
unfoldable pub to_int : ℕ → ℕ
to_int c = if ltb c 128 then c else c + (2 ^ 32 - 256)

abbrev pub to_char : ℕ → ℕ
to_char n = n % 256

unfoldable pub add_int : ℕ → ℕ → ℕ
add_int a b = (a + b) % 2 ^ 32

unfoldable pub sub_int : ℕ → ℕ → ℕ
sub_int a b = (a + 2 ^ 32 - b) % 2 ^ 32

-- `a >= b` on `int`
unfoldable pub ge_int : ℕ → ℕ → Bool
ge_int a b = leb ((b + 2 ^ 31) % 2 ^ 32) ((a + 2 ^ 31) % 2 ^ 32)

-- `a > b` on `int`
unfoldable pub gt_int : ℕ → ℕ → Bool
gt_int a b = ltb ((b + 2 ^ 31) % 2 ^ 32) ((a + 2 ^ 31) % 2 ^ 32)

-- The line of the ring of `memlines` lines that `TTY_POS` picks for the row `row`.
unfoldable pub tty_line : Tty → ℕ → ℕ
tty_line t row =
    let line = add_int t.scrln row in
    if ge_int line t.memlines then sub_int line t.memlines else line

-- `TTY_POS(t, column, row)`, an index into `t->mem`
unfoldable pub tty_pos : Tty → ℕ → ℕ → ℕ
tty_pos t column row = (t.width * tty_line t row + column) % 2 ^ 32

-- `memsetw(mem + pos, value, count)` of src/lib/memory.c
unfoldable pub memsetw : List ℕ → ℕ → ℕ → ℕ → Option (List ℕ)
memsetw mem pos value zero = some mem
memsetw mem pos value (suc count) =
    store mem pos (value % 2 ^ 16) >>= λ mem'. memsetw mem' (pos + 1) value count

-- `memsetw` into the screen memory of `t`
unfoldable pub fill_cells : Tty → ℕ → ℕ → ℕ → Option Tty
fill_cells t pos value count =
    memsetw t.mem pos value count >>= λ mem'. some (record t { mem = mem' })

-- `t->mem[pos] = value`
unfoldable pub put_cell : Tty → ℕ → ℕ → Option Tty
put_cell t pos value = store t.mem pos (value % 2 ^ 16) >>= λ mem'. some (record t { mem = mem' })

-- `t->attr | 0x20`, a blank in the current colours
abbrev pub blank : Tty → ℕ
blank t = bit_or t.attr 0x20

-- TTY_COL_FG_DEF, TTY_COL_BG_DEF
abbrev pub fg_def : ℕ
fg_def = 7

abbrev pub bg_def : ℕ
bg_def = 0

-- `calloc(n, sizeof(USHORT))`
unfoldable pub calloc_cells : ℕ → List ℕ
calloc_cells n = replicate n 0

-- `create_tty`: the screen memory is `calloc`ed, the escape buffer is filled at the first escape.
unfoldable pub create_tty : List ℕ → Tty
create_tty escape_seq = record {
  is_esc = false;
  show_cursor = false;
  echo = false;
  width = 80;
  height = 25;
  memlines = 75;
  viewln = 0;
  scrln = 0;
  esc_ind = 0;
  attr = bit_or (bg_def * 2 ^ 12) (fg_def * 2 ^ 8);
  mem = calloc_cells (80 * 75);
  cursor = record { x = 0; y = 0 };
  saved = record { x = 0; y = 0 };
  escape_seq = escape_seq;
}
