-- ===== src/Tty/Colours.antt =====
-- The colours that `tty_select_graphic_rendition` of src/drivers/tty/tty.c selects, and its loop over
-- the parameters of an escape sequence.
use Prim.Native.Nat.{bit_or}
use nupkux.Base.{
  ℕ, zero, suc, ◌+◌, ◌*◌, ◌/◌, ◌%◌, ◌<◌, ◌≡◌, refl, ◌==◌, ==_iff, get_or, Bool, true, ◌&&◌, arith,
  ap, ap₂, ◌∙◌,
}
use nupkux.Tty.Escape.{ansi_col_map, tty_select_graphic_rendition}

-- A finite table: the test holds of the numbers under `count`.
table : (ℕ → Bool) → ℕ → Bool
table test zero = true
table test (suc count) = table test count && test count

table-entry : (test : ℕ → Bool) (count k : ℕ) → k < count → table test count ≡ true → test k ≡ true
unfolding table
table-entry test zero k below holds = elim below [ ]
table-entry test (suc count) k below holds = ground (arith, table-entry test count k)

-- An attribute with the background `bg` and the foreground `fg`, as the video memory has it.
abbrev pub attribute : ℕ → ℕ → ℕ
attribute bg fg = (bg * 16 + fg) * 256

-- The attribute in which a byte `a` tells the colours.
abbrev selects : ℕ → (ℕ → ℕ) → ℕ → Bool
selects n f a = tty_select_graphic_rendition (a * 256) n == f a * 256

foreground_table :
    table (λ a. table (λ i. selects (30 + i) (λ b. b / 16 * 16 + get_or ansi_col_map i 0) a) 8) 256
    ≡ true
unfolding table tty_select_graphic_rendition
foreground_table = refl

background_table :
    table
      (λ a.
        table
          (λ i. selects (40 + i) (λ b. bit_or (b / 16) (get_or ansi_col_map i 0) * 16 + b % 16) a)
          8)
      256
    ≡ true
unfolding table tty_select_graphic_rendition
background_table = refl

default_table : table (selects 49 (λ b. b)) 256 ≡ true
unfolding table tty_select_graphic_rendition
default_table = refl

table_pair-entry :
    (f : ℕ → ℕ → Bool) (a i : ℕ)
    → a < 256
    → i < 8
    → table (λ b. table (f b) 8) 256 ≡ true
    → f a i ≡ true
table_pair-entry f a i p q h = table-entry (f a) 8 i q (table-entry (λ b. table (f b) 8) 256 a p h)

high : (bg fg : ℕ) → fg < 16 → (bg * 16 + fg) / 16 ≡ bg
high bg fg h = omega arith

low : (bg fg : ℕ) → fg < 16 → (bg * 16 + fg) % 16 ≡ fg
low bg fg h = omega arith

-- The parameters 30 to 37 set the foreground to their colour and keep the background.
pub foreground_selected :
    (bg fg i : ℕ)
    → bg < 16
    → fg < 16
    → i < 8
    → tty_select_graphic_rendition (attribute bg fg) (30 + i)
      ≡ attribute bg (get_or ansi_col_map i 0)
foreground_selected bg fg i hb hf hi =
    (==_iff _ _).0 (
      table_pair-entry (λ a j. selects (30 + j) (λ b. b / 16 * 16 + get_or ansi_col_map j 0) a)
        (bg * 16 + fg) i (omega arith) hi foreground_table)
    ∙ ap (λ b. (b * 16 + get_or ansi_col_map i 0) * 256) (high bg fg hf)

-- The parameters 40 to 47 do not replace the background: they add the bits of their colour to those
-- of the old one. Parameter 49, which stands for the default background, changes nothing.
pub background_accumulates :
    (bg fg i : ℕ)
    → bg < 16
    → fg < 16
    → i < 8
    → (tty_select_graphic_rendition (attribute bg fg) (40 + i)
        ≡ attribute (bit_or bg (get_or ansi_col_map i 0)) fg)
      × (tty_select_graphic_rendition (attribute bg fg) 49 ≡ attribute bg fg)
background_accumulates bg fg i hb hf hi = (
  (==_iff _ _).0 (
        table_pair-entry
          (λ a j. selects (40 + j) (λ b. bit_or (b / 16) (get_or ansi_col_map j 0) * 16 + b % 16) a)
          (bg * 16 + fg) i (omega arith) hi background_table)
      ∙ ap₂ (λ b f. (bit_or b (get_or ansi_col_map i 0) * 16 + f) * 256) (high bg fg hf)
          (low bg fg hf),
  (==_iff _ _).0 (table-entry (selects 49 (λ b. b)) 256 (bg * 16 + fg) (omega arith) default_table),
)
