-- ===== src/Keyboard/Tests.antt =====
-- A console's ring of keys on concrete input, and the theorems applied to it.
use nupkux.Base.{
  ℕ, ◌≡◌, ◌<◌, ◌+◌, ◌*◌, ◌%◌, ◌-◌, refl, List, [], ◌∷◌, replicate, false, true, arith, length, take,
  drop,
}
use nupkux.Keyboard.{
  Input, put_key, tty_read, Keyboard, irq_tty_keyboard, handle_key, keymap_states, key_alt,
}
use nupkux.Keyboard.Ring.{Queue, enqueue, as_bytes, put_key-Queue, tty_read-Queue}
use nupkux.Keyboard.Keys.{IsCreated, irq_tty_keyboard-IsCreated}

abbrev empty : Input
empty = record { buffer = replicate 16 0; in_s = 15; in_e = 15 }

empty-Queue : Queue empty []
empty-Queue = record {
  valid = record { size = refl; start = omega arith; stop = omega arith };
  count = refl;
  keys = λ i l. absurd (omega (arith, l));
}

abbrev hi : List ℕ
hi = 104 ∷ 105 ∷ []

abbrev two_keys : Input
two_keys = put_key (put_key empty 104) 105

two_keys-Queue : Queue two_keys hi
two_keys-Queue =
    put_key-Queue (put_key empty 104) (104 ∷ []) 105
      (put_key-Queue empty [] 104 empty-Queue (omega arith)) (omega arith)

read_one : (tty_read 1 two_keys).bytes ≡ 104 ∷ []
unfolding put_key tty_read nupkux.Keyboard.take_key
read_one = refl

put_key-Queue_example : Queue (put_key two_keys 13) (enqueue hi 13)
put_key-Queue_example = put_key-Queue two_keys hi 13 two_keys-Queue (omega arith)

tty_read-Queue_example :
    ((tty_read 3 two_keys).bytes ≡ as_bytes (take 3 hi))
    × ((tty_read 3 two_keys).left ≡ 3 - length hi)
    × Queue (tty_read 3 two_keys).input (drop 3 hi)
tty_read-Queue_example = tty_read-Queue 3 two_keys hi two_keys-Queue

-- ALT on scan code 56, in every state.
abbrev keymap : List ℕ
keymap = replicate 768 key_alt

abbrev escaped : Keyboard
escaped = record {
  key_state = 1;
  shift = true;
  alt = false;
  altgr = false;
  ctrl = false;
  escape = true;
}

escaped-IsCreated : IsCreated escaped
unfolding nupkux.Keyboard.create_key_state
escaped-IsCreated = record { state = refl }

altgr_down : (irq_tty_keyboard keymap escaped empty 56).keyboard.key_state ≡ 3
unfolding irq_tty_keyboard handle_key nupkux.Keyboard.switch_key nupkux.Keyboard.create_key_state
altgr_down = refl

irq_tty_keyboard-IsCreated_example :
    ((56 % 128) * keymap_states + escaped.key_state < 768)
    × IsCreated (irq_tty_keyboard keymap escaped empty 56).keyboard
irq_tty_keyboard-IsCreated_example =
    irq_tty_keyboard-IsCreated keymap escaped empty 56 escaped-IsCreated
