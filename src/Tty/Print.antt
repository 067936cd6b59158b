-- ===== src/Tty/Print.antt =====
-- What a printed byte changes on the screen of a console: src/drivers/tty/tty.c.
use Prim.Native.Nat.{bit_or}
use nupkux.Base.{
  ℕ, ◌+◌, ◌%◌, ◌^◌, ◌<◌, ◌≡◌, ◌≢◌, refl, length, set, get_or, get_or-set_self, get_or-set_ne, false,
  some, arith, ◌⊎◌, ◌>>=◌, store-in, ap, ◌∙◌, sym,
}
use nupkux.Tty.State.{Tty, tty_line, tty_pos, put_cell}
use nupkux.Tty.Write.{print_byte, plain_byte, wrap_line, scroll, write_byte, label, printed}
use nupkux.Tty.Bounds.Valid.{IsTty, to_int_small, ge_int_small, tty_pos_in}
use nupkux.Tty.Scroll.{cell, cell-ne, tty_pos_lem, tty_pos_same, tty_line-ne, write_plain}

module _ (t : Tty) (v : IsTty t) where
  -- The place at the cursor.
  here : ℕ
  here = tty_pos t t.cursor.x t.cursor.y

  pos-ne :
      (row column : ℕ)
      → row < t.height
      → column < t.width
      → (row ≢ t.cursor.y) ⊎ (column ≢ t.cursor.x)
      → here ≢ tty_pos t column row
  unfolding here
  pos-ne row column h k d e =
      ground (arith, d, same, tty_line-ne t v row t.cursor.y, tty_line-ne t v t.cursor.y row)
    where
      same : (tty_line t t.cursor.y ≡ tty_line t row) × (t.cursor.x ≡ column)
      same = cell-ne t.width (tty_line t t.cursor.y) (tty_line t row) t.cursor.x column v.column k (
          sym (tty_pos_lem t v t.cursor.x t.cursor.y v.row v.column)
          ∙ e
          ∙ tty_pos_lem t v column row h k)

  -- The console behind the byte `c`.
  stored : ℕ → Tty
  stored c = record t {
    mem = set t.mem here (bit_or t.attr c % 2 ^ 16);
    cursor = record { x = t.cursor.x + 1; y = t.cursor.y };
  }

  print_byte-stored : (c : ℕ) → print_byte t c ≡ some (stored c)
  unfolding print_byte put_cell stored here
  print_byte-stored c =
      rw
        (
          to_int_small t.cursor.x (omega (arith, v)),
          to_int_small t.cursor.y (omega (arith, v)),
          store-in t.mem (tty_pos t t.cursor.x t.cursor.y) (bit_or t.attr c % 2 ^ 16)
              (omega (arith, tty_pos_in v t.cursor.x t.cursor.y 1 v.row (omega (arith, v)))),
        )
        (ground (arith, v))

  printed_stored : (c : ℕ) → label c ≡ printed → plain_byte t c (label c) ≡ some (stored c)
  unfolding plain_byte
  printed_stored c l = rw l (print_byte-stored c)

  stays : (c : ℕ) → t.cursor.x + 1 < t.width → scroll (wrap_line (stored c)) ≡ some (stored c)
  unfolding scroll wrap_line stored
  stays c inside = ground (
    arith,
    v,
    to_int_small (t.cursor.x + 1),
    to_int_small t.cursor.y,
    ge_int_small (t.cursor.x + 1) t.width,
  )

  stored_cursor : (c : ℕ) → (stored c).cursor ≡ record { x = t.cursor.x + 1; y = t.cursor.y }
  unfolding stored
  stored_cursor c = refl

  here_in : here < length t.mem
  unfolding here
  here_in = omega (arith, tty_pos_in v t.cursor.x t.cursor.y 1 v.row (omega (arith, v)))

  cell_here :
      (c : ℕ) → get_or (stored c).mem (tty_pos t t.cursor.x t.cursor.y) 0 ≡ bit_or t.attr c % 2 ^ 16
  unfolding stored here
  cell_here c =
      get_or-set_self t.mem (tty_pos t t.cursor.x t.cursor.y) (bit_or t.attr c % 2 ^ 16) 0 (here_in)

  cell_elsewhere :
      (c row column : ℕ)
      → row < t.height
      → column < t.width
      → (row ≢ t.cursor.y) ⊎ (column ≢ t.cursor.x)
      → get_or (stored c).mem (tty_pos t column row) 0 ≡ cell t row column
  unfolding stored
  cell_elsewhere c row column h k d =
      get_or-set_ne t.mem here (tty_pos t column row) (bit_or t.attr c % 2 ^ 16) 0
        (pos-ne row column h k d)

  -- Outside an escape sequence, a printed byte on a valid console whose cursor is in front of the last
  -- column appears at the cursor in the current colours; every other
  -- cell of the screen stays, and the cursor moves on by one column.
  pub print_byte_lem :
      (c : ℕ)
      → t.is_esc ≡ false
      → label c ≡ printed
      → t.cursor.x + 1 < t.width
      → (t' : Tty) × (write_byte t c ≡ some t')
        × (cell t' t.cursor.y t.cursor.x ≡ bit_or t.attr c % 2 ^ 16)
        × ((row column : ℕ)
            → row < t.height
            → column < t.width
            → (row ≢ t.cursor.y) ⊎ (column ≢ t.cursor.x)
            → cell t' row column ≡ cell t row column)
        × (t'.cursor ≡ record { x = t.cursor.x + 1; y = t.cursor.y })
  unfolding stored
  print_byte_lem c idle l inside = (
    stored c,
    write_plain t c idle
        ∙ ap (λ o. o >>= λ t'. scroll (wrap_line t')) (printed_stored c l)
        ∙ stays c inside,
    rw (tty_pos_same t (stored c).mem (stored c).cursor t.cursor.x t.cursor.y) (cell_here c),
    (λ row column h k d.
        rw (tty_pos_same t (stored c).mem (stored c).cursor column row)
          (cell_elsewhere c row column h k d)),
    stored_cursor c,
  )
