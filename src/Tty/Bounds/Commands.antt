-- ===== src/Tty/Bounds/Commands.antt =====
-- Every escape command keeps the invariant of the console, if its numbers are no negative `int`s.
use nupkux.Base.{
  ℕ, zero, suc, ◌+◌, ◌-◌, ◌^◌, ◌≤◌, ◌<◌, ◌≡◌, refl, ◌==◌, if◌then◌else◌, List, Bool, true, false,
  Option, arith, ◌>>=◌, Holds, holds, Holds->>=, Holds-map, ap, Holds-if,
}
use nupkux.CString.{strchr}
use nupkux.Tty.State.{Tty, to_int, add_int, sub_int, ge_int, tty_pos, fill_cells, blank}
use nupkux.Tty.Escape.{
  cursor_up, cursor_down, cursor_right, cursor_left, cursor_column, line_start, clamp, two_numbers,
  cursor_position, erase_rows, rows, erase, erase_param, param_or_one, run_command, Command, up,
  down, right, left, next_line, previous_line, to_column, to_position, erase_screen, erase_line,
  rendition, save, restore, hide, show, set_echo, nothing,
}
use nupkux.Tty.Bounds.Valid.{
  IsTty, to_int_small, add_int_small, sub_int_small, ge_int_small, gt_int_small, IsFilled,
  IsFilled-IsTty, fill_cells-IsFilled,
}
use nupkux.Tty.Bounds.Number.{digits, param_or_one-lt, two_numbers-lt}

-- A valid console that reads an escape sequence exactly if `t` does.
abbrev pub Keeps : Tty → Tty → Type 0
Keeps t t' = IsTty t' × (t'.is_esc ≡ t.is_esc)

clamp_in : (n max : ℕ) → n < 10 ^ 9 → 0 < max → max < 128 → (0 < clamp n max) × (clamp n max ≤ max)
unfolding clamp
clamp_in n max h p q = ground (arith, gt_int_small 1 n, gt_int_small n max)

module _ {t : Tty} (v : IsTty t) (n : ℕ) (h : n < 10 ^ 9) where
  cursor_up-Keeps : Keeps t (cursor_up t n)
  unfolding cursor_up
  cursor_up-Keeps =
      ground (arith, to_int_small t.cursor.y, ge_int_small n t.cursor.y, sub_int_small t.cursor.y n)

  cursor_left-Keeps : Keeps t (cursor_left t n)
  unfolding cursor_left
  cursor_left-Keeps =
      ground (arith, to_int_small t.cursor.x, ge_int_small n t.cursor.x, sub_int_small t.cursor.x n)

  cursor_down-Keeps : Keeps t (cursor_down t n)
  unfolding cursor_down
  cursor_down-Keeps = ground (
    arith,
    to_int_small t.cursor.y,
    add_int_small t.cursor.y n,
    ge_int_small (t.cursor.y + n) t.height,
    sub_int_small t.height 1,
  )

  cursor_right-Keeps : Keeps t (cursor_right t n)
  unfolding cursor_right
  cursor_right-Keeps = ground (
    arith,
    to_int_small t.cursor.x,
    add_int_small t.cursor.x n,
    ge_int_small (t.cursor.x + n) t.width,
    sub_int_small t.width 1,
  )

  cursor_column-Keeps : Keeps t (cursor_column t n)
  unfolding cursor_column
  cursor_column-Keeps =
      ground (
        arith,
        gt_int_small n t.width,
        sub_int_small n 1,
        sub_int_small 1 1,
        sub_int_small t.width 1,
      )

line_start-Keeps : (t t' : Tty) → Keeps t t' → Keeps t (line_start t')
line_start-Keeps t t' v = ground arith

cursor_position-Keeps :
    {t : Tty} → IsTty t → (params : List ℕ) → digits params ≤ 9 → Keeps t (cursor_position t params)
unfolding cursor_position
cursor_position-Keeps {t} v params h =
    let (n, m) = two_numbers params (strchr params b';') in
    let small = two_numbers-lt params b';' h in
    let cn = clamp_in n t.width small.0 v.wide.0 (omega arith) in
    let cm = clamp_in m t.height small.1 v.high.0 v.high.1 in
    ground (arith, cn, cm, sub_int_small (clamp n t.width) 1, sub_int_small (clamp m t.height) 1)

IsFilled-trans : (t u w : Tty) → IsFilled t u → IsFilled u w → IsFilled t w
IsFilled-trans t u w (m, e, l) (m', e', l') = (m', ground arith, ground arith)

-- An erasure that is followed by another, on a console with the same screen.
IsFilled-twice :
    (t : Tty) (f : Tty → Option Tty) {o : Option Tty}
    → Holds (IsFilled t) o
    → ((u : Tty) → IsFilled t u → Holds (IsFilled u) (f u))
    → Holds (IsFilled t) (o >>= f)
IsFilled-twice t f h g =
    Holds->>= (IsFilled t) (IsFilled t) f h
      λ u fu. Holds-map (IsFilled u) (IsFilled t) (g u fu) (λ w. IsFilled-trans t u w fu)

IsFilled-height : (t u : Tty) → IsFilled t u → u.height ≡ t.height
IsFilled-height t u (m, e, l) = ap (λ w. w.height) e

erase_rows-IsFilled :
    (count row : ℕ) (t : Tty)
    → IsTty t
    → row + count ≤ t.height
    → Holds (IsFilled t) (erase_rows count row t)
unfolding erase_rows
erase_rows-IsFilled zero row t v h = holds (t.mem, refl, refl)
erase_rows-IsFilled (suc count) row t v h =
    IsFilled-twice t (erase_rows count (row + 1))
      (fill_cells-IsFilled v 0 row (blank t) t.width (omega arith) (omega arith))
      λ u f.
        erase_rows-IsFilled count (row + 1) u (IsFilled-IsTty v f)
          (omega (arith, IsFilled-height t u f))

rows_small : (from to : ℕ) → from < 2 ^ 31 → to < 2 ^ 31 → rows from to ≡ to - from
unfolding rows
rows_small from to h k = ground (arith, ge_int_small from to h k, sub_int_small to from)

-- The part of a line, and the whole lines above or below it.
fill_then_rows :
    (t : Tty)
    → IsTty t
    → (column row count lines from : ℕ) → row < t.height
    → column + count ≤ t.width
    → from + lines ≤ t.height
    → Holds
        (IsFilled t)
        (fill_cells t (tty_pos t column row) (blank t) count >>= erase_rows lines from)
fill_then_rows t v column row count lines from h k l =
    IsFilled-twice t (erase_rows lines from) (fill_cells-IsFilled v column row (blank t) count h k)
      λ u f.
        erase_rows-IsFilled lines from u (IsFilled-IsTty v f) (omega (arith, IsFilled-height t u f))

rows_in :
    (screen : Bool) (from to : ℕ)
    → from < 2 ^ 31
    → to < 2 ^ 31
    → from ≤ to
    → from + (if screen then rows from to else 0) ≤ to
rows_in screen from to h k l = ground (arith, rows_small from to h k)

erase-IsFilled : (screen : Bool) (t : Tty) (n : ℕ) → IsTty t → Holds (IsFilled t) (erase screen t n)
unfolding erase
erase-IsFilled screen t n v =
    rw (x_small, y_small, add_int_small t.cursor.y 1 (omega arith) (omega arith))
      (Holds-if (IsFilled t) (n == 0) _ _
        (fill_then_rows t v t.cursor.x t.cursor.y (sub_int t.width t.cursor.x) _ (t.cursor.y + 1)
          v.row (omega (arith, sub_int_small t.width t.cursor.x))
          (rows_in screen (t.cursor.y + 1) t.height (omega arith) (omega arith) (omega arith)))
        (Holds-if (IsFilled t) (n == 1) _ _
          (fill_then_rows t v 0 t.cursor.y (add_int t.cursor.x 1) _ 0 v.row
            (omega (arith, add_int_small t.cursor.x 1))
            (omega (arith, rows_in screen 0 t.cursor.y)))
          (Holds-if (IsFilled t) (n == 2) _ _
            (Holds-if (IsFilled t) screen _ _ (erase_rows-IsFilled t.height 0 t v (omega arith))
              (fill_cells-IsFilled v 0 t.cursor.y (blank t) t.width v.row (omega arith)))
            (holds (t.mem, refl, refl)))))
  where
    x_small : to_int t.cursor.x ≡ t.cursor.x
    x_small = to_int_small t.cursor.x (omega arith)

    y_small : to_int t.cursor.y ≡ t.cursor.y
    y_small = to_int_small t.cursor.y (omega arith)

module _ (t : Tty) (v : IsTty t) where
  IsFilled-Keeps : (u : Tty) → IsFilled t u → Keeps t u
  IsFilled-Keeps u f = (IsFilled-IsTty v f, ap (λ w. w.is_esc) (f.1))

  erased : (screen : Bool) (n : ℕ) → Holds (Keeps t) (erase screen t n)
  erased screen n = Holds-map (IsFilled t) (Keeps t) (erase-IsFilled screen t n v) IsFilled-Keeps

  -- Every command with at most nine digits of parameters succeeds and keeps the invariant.
  pub run_command-Keeps :
      (c : Command) (params : List ℕ) → digits params ≤ 9 → Holds (Keeps t) (run_command t c params)
  unfolding run_command
  run_command-Keeps up params h = holds (cursor_up-Keeps v _ (param_or_one-lt params h))
  run_command-Keeps down params h = holds (cursor_down-Keeps v _ (param_or_one-lt params h))
  run_command-Keeps right params h = holds (cursor_right-Keeps v _ (param_or_one-lt params h))
  run_command-Keeps left params h = holds (cursor_left-Keeps v _ (param_or_one-lt params h))
  run_command-Keeps next_line params h =
      holds (line_start-Keeps t _ (cursor_down-Keeps v _ (param_or_one-lt params h)))
  run_command-Keeps previous_line params h =
      holds (line_start-Keeps t _ (cursor_up-Keeps v _ (param_or_one-lt params h)))
  run_command-Keeps to_column params h = holds (cursor_column-Keeps v _ (param_or_one-lt params h))
  run_command-Keeps to_position params h = holds (cursor_position-Keeps v params h)
  run_command-Keeps erase_screen params h = erased true (erase_param params (param_or_one params))
  run_command-Keeps erase_line params h = erased false (erase_param params (param_or_one params))
  run_command-Keeps rendition params h = holds (ground arith)
  run_command-Keeps save params h = holds (ground arith)
  run_command-Keeps restore params h = holds (ground arith)
  run_command-Keeps hide params h = holds (ground arith)
  run_command-Keeps show params h = holds (ground arith)
  run_command-Keeps set_echo params h = holds (ground arith)
  run_command-Keeps nothing params h = holds (v, refl)

-- A parameter that overflows to a negative `int` moves the cursor out of the screen: with the bit
-- pattern of -d, `A` moves it down by d rows, however few there are.
pub cursor_up_negative :
    (t : Tty) (d : ℕ)
    → IsTty t
    → 0 < d
    → d ≤ 100
    → (cursor_up t (2 ^ 32 - d)).cursor.y ≡ t.cursor.y + d
unfolding cursor_up ge_int sub_int
cursor_up_negative t d v h k = ground (arith, to_int_small t.cursor.y)
