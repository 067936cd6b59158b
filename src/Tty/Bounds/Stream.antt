-- ===== src/Tty/Bounds/Stream.antt =====
-- `do_tty_write` keeps the invariant of the console for every buffer whose escape sequences have
-- at most nine digits each.
use nupkux.Base.{
  ℕ, suc, ◌+◌, ◌-◌, ◌*◌, ◌/◌, ◌%◌, ◌≤◌, ◌<◌, ◌≡◌, refl, ◌==◌, leb, if◌then◌else◌, List, [], ◌∷◌,
  length, drop, set, replicate, Bool, true, false, not, ◌&&◌, ◌||◌, Option, some, arith, Bool-cases,
  ◌⊎◌, inl, inr, ◌>>=◌, Holds, holds, Holds->>=, Holds-map, Holds-some, length-replicate, ◌∙◌,
}
use nupkux.Tty.State.{
  Tty, to_int, sub_int, to_char, blank, tty_escape_len, create_tty, calloc_cells,
}
use nupkux.Tty.Escape.{is_digit, tty_interpret_escape, c_string}
use nupkux.Tty.Write.{
  is_escape_end, is_escape_chr, at_column, escape_byte, count_escape, step_back, backspace,
  tabulator, print_byte, Label, label, nul, back, tab, newline, feed, return, start_escape, printed,
  plain_byte, wrap_line, scrolled, scroll, write_byte, write_loop, do_tty_write,
}
use nupkux.Tty.Bounds.Valid.{
  IsTty, to_int_small, add_int_small, sub_int_small, ge_int_small, IsFilled, IsFilled-IsTty,
  fill_cells-IsFilled, put_cell-IsFilled,
}
use nupkux.Tty.Bounds.Number.{digits, digits-set-le, digits-c_string-le, digits-tail-le}
use nupkux.Tty.Bounds.Commands.{Keeps, run_command-Keeps}

-- May the console read an escape sequence behind the byte `c`, if `m` says so of the byte in front?
abbrev pub next_mode : Bool → ℕ → Bool
next_mode m c = c == 27 || (m && (is_digit c || c == b';' || c == b'?' || c == b'['))

-- The digits since the last escape.
abbrev pub next_count : Bool → ℕ → ℕ → ℕ
next_count m k c = if c == 27 then 0 else if m && is_digit c then suc k else k

-- No escape sequence has more than nine digits.
abbrev pub ShortNumbers : Bool → ℕ → List ℕ → Type 0
ShortNumbers m k [] = Unit
ShortNumbers m k (c ∷ buffer) =
    (next_count m k c ≤ 9) × ShortNumbers (next_mode m c) (next_count m k c) buffer

abbrev InEscape : Bool → ℕ → Tty → Type 0
InEscape m k t = t.is_esc ≡ true → (m ≡ true) × (digits t.escape_seq ≤ k)

-- A valid console; one that reads an escape sequence has seen at most `k` digits of it.
pub record Ready (m : Bool) (k : ℕ) (t : Tty) : Type 0 where
  pub valid : IsTty t
  pub escape : InEscape m k t

-- A console between the `switch` and the tests of the cursor behind it.
pub record Late (t : Tty) : Type 0 where
  pub home : IsTty (record t { cursor = record { x = 0; y = 0 } })
  pub column : t.cursor.x ≤ t.width
  pub row : t.cursor.y ≤ t.height
  pub inside : (t.cursor.x < t.width) ⊎ (t.cursor.y < t.height)

record LateIn (m : Bool) (k : ℕ) (t : Tty) : Type 0 where
  late : Late t
  escape : InEscape m k t

pub IsTty-Late : {t : Tty} → IsTty t → Late t
IsTty-Late v = ground arith

wrap_line-Late :
    (t : Tty) → Late t → (Late (wrap_line t)) × ((wrap_line t).cursor.x < (wrap_line t).width)
unfolding wrap_line
wrap_line-Late t v = ground (arith, to_int_small t.cursor.x, ge_int_small t.cursor.x t.width)

pub scrolled-IsTty :
    (t : Tty) → Late t → t.cursor.x < t.width → t.cursor.y ≡ t.height → IsTty (scrolled t)
unfolding scrolled
scrolled-IsTty t v h e = ground arith

scrolled-escape :
    (m : Bool) (k : ℕ) (t u : Tty) → InEscape m k t → IsFilled (scrolled t) u → InEscape m k u
unfolding scrolled
scrolled-escape m k t u e (mem', p, l) = rw p e

scroll-Ready :
    (m : Bool) (k : ℕ) (t : Tty)
    → Late t
    → InEscape m k t
    → t.cursor.x < t.width
    → Holds (Ready m k) (scroll t)
unfolding scroll
scroll-Ready m k t v e h = elim (Bool-cases (to_int t.cursor.y == t.height)) [
  | inl bottom ↦
      let w = scrolled-IsTty t v h (ground (arith, to_int_small t.cursor.y)) in
      rw bottom (
        Holds-map (IsFilled (scrolled t)) (Ready m k)
          (fill_cells-IsFilled w 0 (sub_int (scrolled t).height 1) (blank (scrolled t))
            (scrolled t).width (omega (arith, w, sub_int_small (scrolled t).height 1))
            (omega arith))
          λ u f. record { valid = IsFilled-IsTty w f; escape = scrolled-escape m k t u e f })
  | inr above ↦
      rw above (holds (record { valid = ground (arith, to_int_small t.cursor.y); escape = e }))
]

wrap_line-escape : (m : Bool) (k : ℕ) (t : Tty) → InEscape m k t → InEscape m k (wrap_line t)
unfolding wrap_line
wrap_line-escape m k t e = ground (arith)

finish-Ready :
    (m : Bool) (k : ℕ) (t : Tty) → LateIn m k t → Holds (Ready m k) (scroll (wrap_line t))
finish-Ready m k t v =
    let (l, h) = wrap_line-Late t v.late in
    scroll-Ready m k (wrap_line t) l (wrap_line-escape m k t v.escape) h

-- A byte that belongs to no escape sequence.
module _ (t : Tty) (v : IsTty t) (idle : t.is_esc ≡ false) (m : Bool) (k : ℕ) where
  filled-LateIn : (u : Tty) → IsFilled t u → LateIn m k u
  filled-LateIn u (mem', e, l) = rw e (ground arith)

  printed-LateIn : (u : Tty) → IsFilled t u → LateIn m k (at_column u (to_char (t.cursor.x + 1)))
  printed-LateIn u (mem', e, l) = rw e (ground arith)

  print_byte-LateIn : (c : ℕ) → Holds (LateIn m k) (print_byte t c)
  unfolding print_byte
  print_byte-LateIn c =
      rw (to_int_small t.cursor.x (omega arith), to_int_small t.cursor.y (omega arith))
        (Holds->>= (IsFilled t) (LateIn m k) _
          (put_cell-IsFilled v t.cursor.x t.cursor.y _ v.row v.column)
          λ u f. holds (printed-LateIn u f))

  tabulator-LateIn : LateIn m k (tabulator t)
  unfolding tabulator
  tabulator-LateIn = ground (
    arith,
    to_int_small t.cursor.x,
    to_int_small ((t.cursor.x + 8) % 256 / 8 * 8),
    add_int_small t.cursor.x 8,
    ge_int_small ((t.cursor.x + 8) % 256 / 8 * 8) t.width,
    sub_int_small t.width 1,
  )

step_back-IsTty : (t : Tty) → IsTty t → IsTty (step_back t) × ((step_back t).is_esc ≡ t.is_esc)
unfolding step_back
step_back-IsTty t v = ground arith

module _ (t : Tty) (v : IsTty t) (idle : t.is_esc ≡ false) (m : Bool) (k : ℕ) where
  backspace-LateIn : Holds (LateIn m k) (backspace t)
  unfolding backspace
  backspace-LateIn =
      let (w, e) = step_back-IsTty t v in
      rw
        (
          to_int_small (step_back t).cursor.x (omega (arith, w)),
          to_int_small (step_back t).cursor.y (omega (arith, w)),
        )
        (Holds-map (IsFilled (step_back t)) (LateIn m k)
          (put_cell-IsFilled w (step_back t).cursor.x (step_back t).cursor.y _ w.row w.column)
          (filled-LateIn (step_back t) w (e ∙ idle) m k))

digits-fresh : digits (b'[' ∷ replicate (tty_escape_len - 1) 0) ≡ 0
digits-fresh = refl

label-escape : (c : ℕ) → label c ≡ start_escape → c ≡ 27
unfolding label
label-escape c e = ground arith

plain_byte-LateIn :
    (t : Tty) (c : ℕ) (l : Label) (m : Bool) (k : ℕ)
    → IsTty t
    → t.is_esc ≡ false
    → (l ≡ start_escape → m ≡ true)
    → Holds (LateIn m k) (plain_byte t c l)
unfolding plain_byte
plain_byte-LateIn t c nul m k v i s = holds (ground arith)
plain_byte-LateIn t c back m k v i s = backspace-LateIn t v i m k
plain_byte-LateIn t c tab m k v i s = holds (tabulator-LateIn t v i m k)
plain_byte-LateIn t c newline m k v i s = holds (ground arith)
plain_byte-LateIn t c feed m k v i s = holds (ground arith)
plain_byte-LateIn t c return m k v i s = holds (ground arith)
plain_byte-LateIn t c start_escape m k v i s =
    holds (record { late = ground arith; escape = λ _. (s refl, rw digits-fresh (omega arith)) })
plain_byte-LateIn t c printed m k v i s = print_byte-LateIn t v i m k c

-- A byte of an escape sequence.
interpret-LateIn :
    (t : Tty) (m : Bool) (k : ℕ)
    → IsTty t
    → t.is_esc ≡ false
    → digits t.escape_seq ≤ 9
    → Holds (LateIn m k) (tty_interpret_escape t)
unfolding tty_interpret_escape
interpret-LateIn t m k v i h =
    Holds-map (Keeps t') (LateIn m k)
      (run_command-Keeps t' (ground arith) _ (c_string (drop 1 seq)) (
        omega (
          arith,
          digits-c_string-le (drop 1 seq),
          digits-tail-le seq,
          digits-set-le t.escape_seq t.esc_ind 0,
        )))
      λ u w. record { late = IsTty-Late w.0; escape = λ e. cc (w.1, i, e) }
  where
    seq : List ℕ
    seq = set t.escape_seq t.esc_ind 0

    t' : Tty
    t' = record t { escape_seq = seq }

module _ (t : Tty) (c k : ℕ) (v : IsTty t) (e : InEscape true k t) (h : next_count true k c ≤ 9)
    (i : t.is_esc ≡ true) where
  stored : Tty
  stored = record t { escape_seq = set t.escape_seq t.esc_ind c }

  escape_byte-LateIn : Holds (LateIn (next_mode true c) (next_count true k c)) (escape_byte t c)
  unfolding escape_byte
  escape_byte-LateIn = elim (Bool-cases (t.esc_ind == 0)) [
    | inl first ↦ rw first (holds (ground (arith, e i)))
    | inr later ↦
        rw later (elim (Bool-cases (leb tty_escape_len t.esc_ind || not (is_escape_chr c))) [
          | inl refused ↦ rw refused (holds (ground arith))
          | inr taken ↦ rw taken (elim (Bool-cases (is_escape_end c)) [
            | inl ends ↦ rw ends (
                interpret-LateIn
                  (record t { escape_seq = set t.escape_seq t.esc_ind c; is_esc = false }) _ _
                  (ground arith) refl (ground (arith, e i, digits-set-le t.escape_seq t.esc_ind c)))
            | inr more ↦
                rw more (holds (ground (arith, e i, digits-set-le t.escape_seq t.esc_ind c)))
          ])
        ])
  ]

count_escape-LateIn :
    (m : Bool) (k : ℕ) (t : Tty) → LateIn m k t → Holds (LateIn m k) (count_escape t)
unfolding count_escape
count_escape-LateIn m k t v = holds (ground arith)

finished :
    (m : Bool) (k : ℕ) {o : Option Tty}
    → Holds (LateIn m k) o
    → Holds (Ready m k) (o >>= λ t'. scroll (wrap_line t'))
finished m k h = Holds->>= (LateIn m k) (Ready m k) _ h (finish-Ready m k)

branch-Ready :
    (t : Tty) (c k : ℕ) (b m : Bool)
    → t.is_esc ≡ b
    → Ready m k t
    → next_count m k c ≤ 9
    → Holds (Ready (next_mode m c) (next_count m k c)) (
        (if b then (escape_byte t c >>= count_escape) else plain_byte t c (label c)) >>= λ t'.
        scroll (wrap_line t'))
branch-Ready t c k true true i v h = finished _ _ (
    Holds->>= (LateIn (next_mode true c) (next_count true k c)) _ count_escape
      (escape_byte-LateIn t c k v.valid v.escape h i) (count_escape-LateIn _ _))
branch-Ready t c k true false i v h = absurd (ground (arith, v.escape i))
branch-Ready t c k false m i v h =
    finished _ _
      (plain_byte-LateIn t c (label c) _ _ v.valid i λ l. ground (arith, label-escape c l))

-- One turn of the loop.
write_byte-Ready :
    (t : Tty) (c : ℕ) (m : Bool) (k : ℕ)
    → Ready m k t
    → next_count m k c ≤ 9
    → Holds (Ready (next_mode m c) (next_count m k c)) (write_byte t c)
unfolding write_byte
write_byte-Ready t c m k v h = branch-Ready t c k t.is_esc m refl v h

write_loop-IsTty :
    (t : Tty) (buffer : List ℕ) (m : Bool) (k : ℕ)
    → Ready m k t
    → ShortNumbers m k buffer
    → Holds IsTty (write_loop t buffer)
unfolding write_loop
write_loop-IsTty t [] m k v s = holds v.valid
write_loop-IsTty t (c ∷ buffer) m k v s =
    Holds->>= (Ready (next_mode m c) (next_count m k c)) IsTty _ (write_byte-Ready t c m k v s.0)
      λ u w. write_loop-IsTty u buffer _ _ w s.1

-- Writing a buffer to a valid console never accesses memory outside the screen memory, and leaves the
-- cursor on the screen and the console valid, if no escape sequence, the one that the console is reading
-- included, has more than nine digits.
pub do_tty_write-IsTty :
    (t : Tty) (buffer : List ℕ) (m : Bool) (k : ℕ)
    → Ready m k t
    → ShortNumbers m k buffer
    → (t' : Tty) × (do_tty_write t buffer ≡ some t') × IsTty t'
unfolding do_tty_write
do_tty_write-IsTty t buffer m k v s =
    Holds-some IsTty (write_loop-IsTty (record t { viewln = t.scrln }) buffer m k (ground arith) s)

length-calloc_cells : (n : ℕ) → length (calloc_cells n) ≡ n
unfolding calloc_cells
length-calloc_cells n = length-replicate n 0

-- The console that `create_tty` makes is valid and reads no escape sequence.
pub create_tty-Ready : (escape_seq : List ℕ) → Ready false 0 (create_tty escape_seq)
unfolding create_tty
create_tty-Ready escape_seq = record {
  valid = omega (arith, length-calloc_cells (80 * 75));
  escape = λ e. cc;
}
