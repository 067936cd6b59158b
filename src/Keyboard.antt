-- ===== src/Keyboard.antt =====
-- The input side of the console: src/drivers/tty/kbd.c, and `tty_read` and `set_current_tty` of
-- src/drivers/tty/tty.c.
pub mod Ring
pub mod Keys
mod Tests
use Prim.Native.Nat.{bit_or, bit_and}
use nupkux.Base.{
  ℕ, zero, suc, ◌+◌, ◌-◌, ◌*◌, ◌/◌, ◌%◌, ◌==◌, ltb, leb, if◌then◌else◌, List, [], ◌∷◌, get_or, set,
  length, Bool, true, false, not, ◌&&◌, ◌||◌, Option, none, some,
}

-- TTY_INBUF_LEN
abbrev pub inbuf_len : ℕ
inbuf_len = 16

-- `input_buffer`, `in_s` and `in_e` of `struct _tty`
pub record Input : Type 0 where
  pub buffer : List ℕ
  pub in_s : ℕ
  pub in_e : ℕ

-- `if (++n == TTY_INBUF_LEN) n = 0;`
abbrev pub next_place : ℕ → ℕ
next_place n = if n + 1 == inbuf_len then 0 else n + 1

-- The end of `irq_tty_keyboard`: a full buffer loses its oldest key.
unfoldable pub put_key : Input → ℕ → Input
put_key t key =
    let in_e = next_place t.in_e in
    record {
      buffer = set t.buffer t.in_e key;
      in_s = if in_e == t.in_s then next_place t.in_s else t.in_s;
      in_e = in_e;
    }

-- A turn of the loop of `tty_read`: the byte and the buffer behind it, or nothing yet.
unfoldable pub take_key : Input → Option (ℕ × Input)
take_key t =
    if t.in_e == t.in_s
    then none
    else some (get_or t.buffer t.in_s 0 % 256, record t { in_s = next_place t.in_s })

-- What `tty_read` has read and what it still waits for; the bytes are echoed in their order.
pub record Reading : Type 0 where
  pub bytes : List ℕ
  pub left : ℕ
  pub input : Input

abbrev pub read_on : ℕ → Reading → Reading
read_on byte r = record r { bytes = byte ∷ r.bytes }

-- The rest of a turn of `tty_read`, with what the turns behind it read.
abbrev pub read_turn : ℕ → Input → (Input → Reading) → Option (ℕ × Input) → Reading
read_turn size t rest none = record { bytes = []; left = suc size; input = t }
read_turn size t rest (some (byte, t')) = read_on byte (rest t')

-- The turns of `tty_read` up to the first one that finds no key.
unfoldable pub tty_read : ℕ → Input → Reading
tty_read zero t = record { bytes = []; left = 0; input = t }
tty_read (suc size) t = read_turn size t (λ t'. tty_read size t') (take_key t)

-- keymap.h
abbrev pub key_ctrl : ℕ
key_ctrl = 512

abbrev pub key_shift : ℕ
key_shift = 1024

abbrev pub key_alt : ℕ
key_alt = 2048

abbrev pub key_calock : ℕ
key_calock = 269

abbrev pub keymap_states : ℕ
keymap_states = 6

-- The static variables of kbd.c.
pub record Keyboard : Type 0 where
  pub key_state : ℕ
  pub shift : Bool
  pub alt : Bool
  pub altgr : Bool
  pub ctrl : Bool
  pub escape : Bool

unfoldable pub create_key_state : Keyboard → Keyboard
create_key_state k =
    let by_shift : ℕ = if k.shift then 1 else 0 in
    let by_alt = if k.alt then by_shift + 2 else by_shift in
    let by_altgr = if k.altgr then 3 else by_alt in
    record k { key_state = if k.ctrl then 5 else by_altgr }

-- `*scan_code |= KEYUP` and `*scan_code & KEYUP`
abbrev pub with_keyup : ℕ → ℕ
with_keyup scan = if (scan / 128) % 2 == 1 then scan else scan + 128

abbrev pub is_keyup : ℕ → Bool
is_keyup scan = (scan / 128) % 2 == 1

-- The cases of the `switch` over the key: AF1 to AF12 choose a console.
pub data KeyCase : Type 0 where
  shift_key ctrl_key alt_key caps_key other_key : KeyCase
  console_key : ℕ → KeyCase

abbrev pub key_case : ℕ → KeyCase
key_case key =
    if key == key_shift
    then shift_key
    else if key == key_ctrl
    then ctrl_key
    else if key == key_alt
    then alt_key
    else if key == key_calock
    then caps_key
    else if leb (key_alt + 16) key && leb key (key_alt + 27)
    then console_key (key - key_alt - 16)
    else other_key

-- What `handle_key` leaves: the keyboard, the scan code, and a console that was asked for.
pub record Handled : Type 0 where
  pub keyboard : Keyboard
  pub scan_code : ℕ
  pub console : Option ℕ

unfoldable pub switch_key : Keyboard → ℕ → Bool → KeyCase → Handled
switch_key k scan up shift_key = record {
  keyboard = create_key_state (record k { shift = not up });
  scan_code = scan;
  console = none;
}
switch_key k scan up ctrl_key = record {
  keyboard = create_key_state (record k { ctrl = not up });
  scan_code = scan;
  console = none;
}
switch_key k scan up alt_key = record {
  keyboard = create_key_state (record k { alt = not up });
  scan_code = scan;
  console = none;
}
switch_key k scan up caps_key = record {
  keyboard = create_key_state (record k { shift = not k.shift });
  scan_code = scan;
  console = none;
}
switch_key k scan up other_key = record { keyboard = k; scan_code = scan; console = none }
switch_key k scan up (console_key n) = record {
  keyboard = k;
  scan_code = with_keyup scan;
  console = if is_keyup scan then none else some n;
}

-- `(*keymap)[(*scan_code & 0x7F) * KEYMAP_STATES + key_state]`
abbrev pub key_of : List ℕ → Keyboard → ℕ → ℕ
key_of keymap k scan = get_or keymap ((scan % 128) * keymap_states + k.key_state) 0

-- The part of `handle_key` that follows an escape code.
abbrev pub after_escape : Keyboard → ℕ → Bool → Keyboard
after_escape k key up = record k {
  altgr = if k.escape && key == key_alt then not up else k.altgr;
  escape = false;
}

abbrev pub escape_scan : Keyboard → ℕ → ℕ
escape_scan k scan = if k.escape then with_keyup scan else scan

-- `handle_key`, with the key it finds
unfoldable pub handle_key : Keyboard → ℕ → ℕ → Bool → Handled
handle_key k key scan up =
    let scan' = escape_scan k scan in
    let h =
      switch_key (record (after_escape k key up) { escape = scan' == 224 }) scan' up
        (key_case key) in
    record h { scan_code = if key / 256 == 0 then h.scan_code else with_keyup h.scan_code }

-- `irq_tty_keyboard`: the keyboard, the input of the console that was current when the interrupt came,
-- and the console that `set_current_tty` is called for.
pub record Pressed : Type 0 where
  pub keyboard : Keyboard
  pub input : Input
  pub console : Option ℕ

unfoldable pub irq_tty_keyboard : List ℕ → Keyboard → Input → ℕ → Pressed
irq_tty_keyboard keymap k t scan =
    let key = key_of keymap k scan in
    let h = handle_key k key scan (is_keyup scan) in
    record {
      keyboard = h.keyboard;
      input = if h.keyboard.escape || is_keyup h.scan_code then t else put_key t key;
      console = h.console;
    }

-- `set_current_tty` among `NR_TTYS` consoles that all exist
unfoldable pub set_current_tty : ℕ → ℕ → ℕ
set_current_tty current nr = if leb 4 nr then current else nr
