-- ===== src/Tty/Bounds/Valid.antt =====
-- The invariant of a console, and the accesses to the screen memory that it makes safe.
use nupkux.Base.{
  ℕ, zero, suc, ◌+◌, ◌-◌, ◌*◌, ◌%◌, ◌^◌, ◌≤◌, ◌<◌, ◌≡◌, refl, ltb, leb, List, length, set,
  length-set, arith, store-in, Holds, holds, Holds->>=, subst,
}
use nupkux.Tty.State.{
  Tty, to_int, add_int, sub_int, ge_int, gt_int, tty_line, tty_pos, memsetw, fill_cells, put_cell,
}

-- The sizes fit in a `char`, the width so that a tab does too; the cursor and the saved one stand on the screen, the first visible line
-- is one of the ring, and the screen memory holds the ring.
pub record IsTty (t : Tty) : Type 0 where
  pub wide : (0 < t.width) × (t.width ≤ 120)
  pub high : (0 < t.height) × (t.height < 128)
  pub ring : (t.height ≤ t.memlines) × (t.memlines < 2 ^ 15)
  pub column : t.cursor.x < t.width
  pub row : t.cursor.y < t.height
  pub saved_column : t.saved.x < t.width
  pub saved_row : t.saved.y < t.height
  pub line : t.scrln < t.memlines
  pub cells : length t.mem ≡ t.width * t.memlines

-- On numbers below 2 ^ 31 the operations on `int` are those on numbers.
pub to_int_small : (c : ℕ) → c < 128 → to_int c ≡ c
unfolding to_int
to_int_small c h = ground arith

pub add_int_small : (a b : ℕ) → a < 2 ^ 31 → b < 2 ^ 31 → add_int a b ≡ a + b
unfolding add_int
add_int_small a b h k = omega arith

pub sub_int_small : (a b : ℕ) → a < 2 ^ 31 → b ≤ a → sub_int a b ≡ a - b
unfolding sub_int
sub_int_small a b h k = omega arith

pub ge_int_small : (a b : ℕ) → a < 2 ^ 31 → b < 2 ^ 31 → ge_int a b ≡ leb b a
unfolding ge_int
ge_int_small a b h k = ground arith

pub gt_int_small : (a b : ℕ) → a < 2 ^ 31 → b < 2 ^ 31 → gt_int a b ≡ ltb b a
unfolding gt_int
gt_int_small a b h k = ground arith

pub cell_in_ring :
    (line column count width memlines : ℕ)
    → line < memlines
    → column + count ≤ width
    → width * line + column + count ≤ width * memlines
cell_in_ring line column count width memlines h k = grind arith

pub ring_small : (width memlines : ℕ) → width ≤ 120 → memlines < 2 ^ 15 → width * memlines < 2 ^ 31
ring_small width memlines h k = grind arith

module _ {t : Tty} (v : IsTty t) where
  pub tty_line-lt : (row : ℕ) → row < t.height → tty_line t row < t.memlines
  unfolding tty_line
  tty_line-lt row h = ground (
    arith,
    add_int_small t.scrln row,
    ge_int_small (t.scrln + row) t.memlines,
    sub_int_small (t.scrln + row) t.memlines,
  )

  -- A part of a visible line lies within the screen memory.
  pub tty_pos_in :
      (column row count : ℕ)
      → row < t.height
      → column + count ≤ t.width
      → tty_pos t column row + count ≤ length t.mem
  unfolding tty_pos
  tty_pos_in column row count h k = omega (
    arith,
    cell_in_ring (tty_line t row) column count t.width t.memlines (tty_line-lt row h) k,
    ring_small t.width t.memlines v.wide.1 v.ring.1,
    v.cells,
  )

-- `t` with another screen memory of the same size
abbrev pub IsFilled : Tty → Tty → Type 0
IsFilled t t' = (mem' : List ℕ) × (t' ≡ record t { mem = mem' }) × (length mem' ≡ length t.mem)

memsetw-length :
    (mem : List ℕ) (pos value count : ℕ)
    → pos + count ≤ length mem
    → Holds (λ mem'. length mem' ≡ length mem) (memsetw mem pos value count)
unfolding memsetw
memsetw-length mem pos value zero h = holds refl
memsetw-length mem pos value (suc count) h = rw (store-in mem pos (value % 2 ^ 16) (omega arith)) (
    subst
      (λ n.
        Holds (λ mem'. length mem' ≡ n)
          (memsetw (set mem pos (value % 2 ^ 16)) (pos + 1) value count))
      (length-set mem pos (value % 2 ^ 16))
      (memsetw-length (set mem pos (value % 2 ^ 16)) (pos + 1) value count
        (rw length-set (omega arith))))

module _ {t : Tty} (v : IsTty t) where
  pub IsFilled-IsTty : {t' : Tty} → IsFilled t t' → IsTty t'
  IsFilled-IsTty {t'} (mem', e, l) = rw e (ground arith)

  pub fill_cells-IsFilled :
      (column row value count : ℕ)
      → row < t.height
      → column + count ≤ t.width
      → Holds (IsFilled t) (fill_cells t (tty_pos t column row) value count)
  unfolding fill_cells
  fill_cells-IsFilled column row value count h k =
      Holds->>= (λ mem'. length mem' ≡ length t.mem) (IsFilled t) _
        (memsetw-length t.mem (tty_pos t column row) value count
          (tty_pos_in v column row count h k))
        (λ mem' e. holds (mem', refl, e))

  pub put_cell-IsFilled :
      (column row value : ℕ)
      → row < t.height
      → column < t.width
      → Holds (IsFilled t) (put_cell t (tty_pos t column row) value)
  unfolding put_cell
  put_cell-IsFilled column row value h k =
      rw
        (store-in t.mem (tty_pos t column row) (value % 2 ^ 16)
          (omega (arith, tty_pos_in v column row 1 h)))
        (holds (set t.mem (tty_pos t column row) (value % 2 ^ 16), refl, length-set t.mem _ _))
