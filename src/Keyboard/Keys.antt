-- ===== src/Keyboard/Keys.antt =====
-- The state of the modifier keys that kbd.c keeps, and the row of the keymap that it chooses.
use nupkux.Base.{
  ℕ, ◌+◌, ◌*◌, ◌%◌, ◌<◌, ◌==◌, ◌≡◌, refl, ap, ◌∙◌, List, Bool, true, false, Bool-cases, inl, inr,
  eq_or_ne, arith, not_both, not,
}
use nupkux.Keyboard.{
  Keyboard, create_key_state, KeyCase, shift_key, ctrl_key, alt_key, caps_key, other_key,
  console_key, key_case, switch_key, handle_key, irq_tty_keyboard, Input, key_alt, keymap_states,
  after_escape, escape_scan, is_keyup, key_of,
}

-- `key_state` is what the other variables give.
pub record IsCreated (k : Keyboard) : Type 0 where
  pub state : k.key_state ≡ (create_key_state k).key_state

-- Does a case leave `key_state` as it is?
abbrev keeps : KeyCase → Bool
keeps shift_key = false
keeps ctrl_key = false
keeps alt_key = false
keeps caps_key = false
keeps other_key = true
keeps (console_key n) = true

create_key_state-IsCreated : (k : Keyboard) → IsCreated (create_key_state k)
unfolding create_key_state
create_key_state-IsCreated k = record { state = refl }

switch_key-IsCreated :
    (k : Keyboard) (scan : ℕ) (up : Bool) (c : KeyCase)
    → (keeps c ≡ true → IsCreated k)
    → IsCreated (switch_key k scan up c).keyboard
unfolding switch_key
switch_key-IsCreated k scan up shift_key h =
    create_key_state-IsCreated (record k { shift = not up })
switch_key-IsCreated k scan up ctrl_key h = create_key_state-IsCreated (record k { ctrl = not up })
switch_key-IsCreated k scan up alt_key h = create_key_state-IsCreated (record k { alt = not up })
switch_key-IsCreated k scan up caps_key h =
    create_key_state-IsCreated (record k { shift = not k.shift })
switch_key-IsCreated k scan up other_key h = h refl
switch_key-IsCreated k scan up (console_key n) h = h refl

-- The variables that an escape changes do not matter, unless the key is ALT.
escape_keeps :
    (k : Keyboard) (key : ℕ) (up e : Bool)
    → IsCreated k
    → keeps (key_case key) ≡ true
    → IsCreated (record (after_escape k key up) { escape = e })
unfolding create_key_state
escape_keeps k key up e h keep = elim (eq_or_ne key key_alt) [
  | inl alt ↦ absurd (not_both (keeps (key_case key)) keep (ap (λ n. keeps (key_case n)) alt))
  | inr ne ↦
      let other : (key == key_alt) ≡ false = ground (arith, ne) in
      elim (Bool-cases k.escape) [
        | inl e' ↦ record { state = h.state ∙ rw (e', other) refl }
        | inr e' ↦ record { state = h.state ∙ rw e' refl }
      ]
]

handle_key-IsCreated :
    (k : Keyboard) (key scan : ℕ) (up : Bool)
    → IsCreated k
    → IsCreated (handle_key k key scan up).keyboard
unfolding handle_key
handle_key-IsCreated k key scan up h =
    switch_key-IsCreated (record (after_escape k key up) { escape = escape_scan k scan == 224 })
      (escape_scan k scan) up (key_case key)
      (λ keep. escape_keeps k key up (escape_scan k scan == 224) h keep)

index_inside :
    (k : Keyboard) (scan : ℕ) → IsCreated k → (scan % 128) * keymap_states + k.key_state < 768
unfolding create_key_state
index_inside k scan h = ground (arith, h.state)

-- Where `key_state` is what the variables of the modifier keys give, a scan code reads the keymap
-- inside its 128 rows of 6, and `key_state` is what they give behind the interrupt, too.
pub irq_tty_keyboard-IsCreated :
    (keymap : List ℕ) (k : Keyboard) (t : Input) (scan : ℕ)
    → IsCreated k
    → ((scan % 128) * keymap_states + k.key_state < 768)
      × IsCreated (irq_tty_keyboard keymap k t scan).keyboard
unfolding irq_tty_keyboard
irq_tty_keyboard-IsCreated keymap k t scan h =
    (index_inside k scan h, handle_key-IsCreated k (key_of keymap k scan) scan (is_keyup scan) h)
