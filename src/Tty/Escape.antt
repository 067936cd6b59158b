-- ===== src/Tty/Escape.antt =====
-- The escape sequences: `atoi`, `tty_select_graphic_rendition` and `tty_interpret_escape` of
-- src/drivers/tty/tty.c.
use Prim.Native.Nat.{bit_or}
use nupkux.Base.{
  ℕ, zero, suc, ◌+◌, ◌-◌, ◌*◌, ◌/◌, ◌%◌, ◌^◌, leb, ◌==◌, if◌then◌else◌, List, [], ◌∷◌, length, take,
  drop, get_or, set, Bool, true, false, not, ◌&&◌, ◌||◌, Option, none, some, ◌>>=◌, ℤ, pos, negsuc,
}
use nupkux.CString.{strchr, strcmp}
use nupkux.Tty.State.{
  Tty, to_int, to_char, add_int, sub_int, ge_int, gt_int, tty_pos, fill_cells, blank, fg_def,
  bg_def,
}

-- `is_digit`
abbrev pub is_digit : ℕ → Bool
is_digit c = leb b'0' c && leb c b'9'

-- The loop of `atoi`, which skips what is no digit.
unfoldable pub atoi_loop : List ℕ → ℕ → ℕ
atoi_loop [] res = res
atoi_loop (c ∷ str) res =
    if c == 0
    then res
    else atoi_loop str (if is_digit c then (10 * res + (c - b'0')) % 2 ^ 32 else res)

unfoldable pub atoi : List ℕ → ℕ
unfolding atoi_loop
atoi str = atoi_loop str 0

-- `ansi_col_map`
abbrev pub ansi_col_map : List ℕ
ansi_col_map = 0 ∷ 4 ∷ 2 ∷ 6 ∷ 1 ∷ 5 ∷ 3 ∷ 7 ∷ []

-- The colours of `n`, as the pair of `fg` and `bg`. TTY_COL_BRIGHT is 8.
abbrev pub pick_colours : ℕ → ℕ → ℕ → ℕ × ℕ
pick_colours n fg bg =
    if n == 0
    then (fg_def, bg_def)
    else if leb 30 n && leb n 37
    then (get_or ansi_col_map (n - 30) 0, bg)
    else if n == 39
    then (fg_def, bg)
    else if leb 40 n && leb n 47
    then (fg, get_or ansi_col_map (n - 40) 0)
    else if n == 49
    then (fg, bg_def)
    else if leb 90 n && leb n 97
    then (bit_or (get_or ansi_col_map (n - 90) 0) 8, bg)
    else if n == 99
    then (bit_or fg_def 8, bg)
    else if leb 100 n && leb n 107
    then (fg, bit_or (get_or ansi_col_map (n - 100) 0) 8)
    else if n == 109
    then (fg, bit_or bg_def 8)
    else (fg, bg)

-- `tty_select_graphic_rendition`, on the attribute alone. A negative `n` is in no range.
unfoldable pub tty_select_graphic_rendition : ℕ → ℕ → ℕ
tty_select_graphic_rendition attr n =
    let (fg, bg) = pick_colours n (attr / 2 ^ 8 % 256) (attr / 2 ^ 12 % 256) in
    bit_or (bg * 2 ^ 12) (fg * 2 ^ 8) % 2 ^ 16

-- The loop of `case 'm'` over the parameters; every turn but the last goes behind a `;`, so that
-- `suc (length params)` turns are enough.
unfoldable pub select_loop : ℕ → ℕ → List ℕ → ℕ
select_loop zero attr params = attr
select_loop (suc fuel) attr params = elim (strchr params b';') [
  | none ↦ tty_select_graphic_rendition attr (atoi params)
  | some sep ↦
      select_loop fuel
        (tty_select_graphic_rendition attr (atoi (take (length params - length sep) params)))
        (drop 1 sep)
]

-- A number, or 1 for none.
unfoldable pub param_or_one : List ℕ → ℕ
param_or_one [] = 1
param_or_one (c ∷ cs) = if c == 0 then 1 else atoi (c ∷ cs)

-- `case 'A'` and `'F'`, `'B'` and `'E'`, `'C'`, `'D'`
unfoldable pub cursor_up : Tty → ℕ → Tty
cursor_up t n =
    let y = to_int t.cursor.y in
    record t {
      cursor = record { x = t.cursor.x; y = if ge_int n y then 0 else to_char (sub_int y n) };
    }

unfoldable pub cursor_down : Tty → ℕ → Tty
cursor_down t n =
    let y = add_int (to_int t.cursor.y) n in
    record t {
      cursor = record {
        x = t.cursor.x;
        y = if ge_int y t.height then to_char (sub_int t.height 1) else to_char y;
      };
    }

unfoldable pub cursor_right : Tty → ℕ → Tty
cursor_right t n =
    let x = add_int (to_int t.cursor.x) n in
    record t {
      cursor = record {
        x = if ge_int x t.width then to_char (sub_int t.width 1) else to_char x;
        y = t.cursor.y;
      };
    }

unfoldable pub cursor_left : Tty → ℕ → Tty
cursor_left t n =
    let x = to_int t.cursor.x in
    record t {
      cursor = record { x = if ge_int n x then 0 else to_char (sub_int x n); y = t.cursor.y };
    }

-- `cursor.x = 0`
abbrev pub line_start : Tty → Tty
line_start t = record t { cursor = record { x = 0; y = t.cursor.y } }

-- `case 'G'`
unfoldable pub cursor_column : Tty → ℕ → Tty
cursor_column t n =
    let n' = if n == 0 then 1 else if gt_int n t.width then t.width else n in
    record t { cursor = record { x = to_char (sub_int n' 1); y = t.cursor.y } }

-- `if (n < 1) n = 1; else if (n > max) n = max;`
unfoldable pub clamp : ℕ → ℕ → ℕ
clamp n max = if gt_int 1 n then 1 else if gt_int n max then max else n

-- The numbers in front of the first `;` and behind it.
unfoldable pub two_numbers : List ℕ → Option (List ℕ) → ℕ × ℕ
two_numbers params none = (param_or_one params, 1)
two_numbers params (some sep) =
    (param_or_one (take (length params - length sep) params), param_or_one (drop 1 sep))

-- `case 'H'` and `'f'`
unfoldable pub cursor_position : Tty → List ℕ → Tty
cursor_position t params =
    let (n, m) = two_numbers params (strchr params b';') in
    record t {
      cursor = record {
        x = to_char (sub_int (clamp n t.width) 1);
        y = to_char (sub_int (clamp m t.height) 1);
      };
    }

-- `for (m = row; m < row + count; m++) memsetw(mem + TTY_POS(t, 0, m), tmp, width)`
unfoldable pub erase_rows : ℕ → ℕ → Tty → Option Tty
erase_rows zero row t = some t
erase_rows (suc count) row t =
    fill_cells t (tty_pos t 0 row) (blank t) t.width >>= erase_rows count (row + 1)

-- How often `for (m = from; m < to; m++)` turns.
unfoldable pub rows : ℕ → ℕ → ℕ
rows from to = if ge_int from to then 0 else sub_int to from

-- `case 'J'`, where `screen` is true, and `'K'`.
unfoldable pub erase : Bool → Tty → ℕ → Option Tty
erase screen t n =
    let x = to_int t.cursor.x in
    let y = to_int t.cursor.y in
    if n == 0
    then (fill_cells t (tty_pos t x y) (blank t) (sub_int t.width x)
        >>= erase_rows (if screen then rows (add_int y 1) t.height else 0) (add_int y 1))
    else if n == 1
    then (fill_cells t (tty_pos t 0 y) (blank t) (add_int x 1)
        >>= erase_rows (if screen then rows 0 y else 0) 0)
    else if n == 2
    then (if screen
        then erase_rows t.height 0 t
        else fill_cells t (tty_pos t 0 y) (blank t) t.width)
    else some t

-- The string of `params` and the command of `tty_interpret_escape`.
abbrev pub c_string : List ℕ → List ℕ
c_string [] = []
c_string (c ∷ cs) = let rest = c_string cs in if c == 0 then [] else c ∷ rest

abbrev pub cursor_switch : List ℕ
cursor_switch = b'?' ∷ b'2' ∷ b'5' ∷ []

abbrev pub is_zero_int : ℤ → Bool
is_zero_int (pos zero) = true
is_zero_int (pos (suc n)) = false
is_zero_int (negsuc n) = false

-- `if (!*params) n = 0;`
abbrev pub erase_param : List ℕ → ℕ → ℕ
erase_param [] n = 0
erase_param (c ∷ cs) n = n

-- The labels of the `switch` of `tty_interpret_escape`; `nothing` is a command that does nothing, as
-- 'S', 'T' and 'n' are.
pub data Command : Type 0 where
  up down right left next_line previous_line to_column to_position erase_screen erase_line : Command
  rendition save restore hide show set_echo nothing : Command

unfoldable pub command : ℕ → Command
command cmd =
    if cmd == b'A'
    then up
    else if cmd == b'B'
    then down
    else if cmd == b'C'
    then right
    else if cmd == b'D'
    then left
    else if cmd == b'E'
    then next_line
    else if cmd == b'F'
    then previous_line
    else if cmd == b'G'
    then to_column
    else if cmd == b'H' || cmd == b'f'
    then to_position
    else if cmd == b'J'
    then erase_screen
    else if cmd == b'K'
    then erase_line
    else if cmd == b'm'
    then rendition
    else if cmd == b's'
    then save
    else if cmd == b'u'
    then restore
    else if cmd == b'l'
    then hide
    else if cmd == b'h'
    then show
    else if cmd == b'e'
    then set_echo
    else nothing

-- `!strcmp(params, "?25")`
abbrev pub names_cursor : List ℕ → Bool
names_cursor params = is_zero_int (strcmp (some params) (some cursor_switch))

-- The `switch` of `tty_interpret_escape`; `n` is 1 where `params` is empty.
unfoldable pub run_command : Tty → Command → List ℕ → Option Tty
run_command t up params = some (cursor_up t (param_or_one params))
run_command t down params = some (cursor_down t (param_or_one params))
run_command t right params = some (cursor_right t (param_or_one params))
run_command t left params = some (cursor_left t (param_or_one params))
run_command t next_line params = some (line_start (cursor_down t (param_or_one params)))
run_command t previous_line params = some (line_start (cursor_up t (param_or_one params)))
run_command t to_column params = some (cursor_column t (param_or_one params))
run_command t to_position params = some (cursor_position t params)
run_command t erase_screen params = erase true t (erase_param params (param_or_one params))
run_command t erase_line params = erase false t (erase_param params (param_or_one params))
run_command t rendition params =
    some (record t { attr = select_loop (suc (length params)) t.attr params })
run_command t save params = some (record t { saved = t.cursor })
run_command t restore params = some (record t { cursor = t.saved })
run_command t hide params =
    some (record t { show_cursor = if names_cursor params then false else t.show_cursor })
run_command t show params =
    some (record t { show_cursor = if names_cursor params then true else t.show_cursor })
run_command t set_echo params = some (record t { echo = not (param_or_one params == 0) })
run_command t nothing params = some t

-- `tty_interpret_escape`: the command byte is replaced by a NUL, which ends the parameters.
-- (The NULs that are written over a `;` are not kept: the next escape clears the buffer.)
unfoldable pub tty_interpret_escape : Tty → Option Tty
tty_interpret_escape t =
    let seq = set t.escape_seq t.esc_ind 0 in
    run_command (record t { escape_seq = seq }) (command (get_or t.escape_seq t.esc_ind 0))
      (c_string (drop 1 seq))
