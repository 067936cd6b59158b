-- ===== src/Keyboard/Ring.antt =====
-- The ring of keys between `irq_tty_keyboard` and `tty_read` is a queue of at most 15 keys.
use nupkux.Base.{
  eq_or_ne, inl, inr, take, drop, ℕ, zero, suc, ◌+◌, ◌-◌, ◌%◌, ◌≡◌, refl, sym, ◌∙◌, ap, ◌<◌, ◌≤◌,
  ◌==◌, List, [], ◌∷◌, ◌++◌, length, length-set, get_or, set, get_or-set_self, get_or-set_ne, true,
  false, Bool-cases, none, some, arith, if◌then◌else◌, ◌≢◌,
}
use nupkux.Keyboard.{Input, inbuf_len, next_place, put_key, take_key, tty_read}

-- How many keys wait, and the one that is `i` places behind the oldest.
abbrev pub waiting : Input → ℕ
waiting t = (t.in_e + 16 - t.in_s) % 16

abbrev pub key_at : Input → ℕ → ℕ
key_at t i = get_or t.buffer ((t.in_s + i) % 16) 0

pub record IsInput (t : Input) : Type 0 where
  pub size : length t.buffer ≡ inbuf_len
  pub start : t.in_s < inbuf_len
  pub stop : t.in_e < inbuf_len

-- The keys of `q`, the oldest first, wait in `t`.
pub record Queue (t : Input) (q : List ℕ) : Type 0 where
  pub valid : IsInput t
  pub count : waiting t ≡ length q
  pub keys : (i : ℕ) → i < length q → key_at t i ≡ get_or q i 0

abbrev pub as_bytes : List ℕ → List ℕ
as_bytes [] = []
as_bytes (k ∷ q) = k % 256 ∷ as_bytes q

-- A queue of 15 loses its oldest key.
abbrev pub enqueue : List ℕ → ℕ → List ℕ
enqueue [] key = key ∷ []
enqueue (k ∷ q) key = if length q == 14 then q ++ (key ∷ []) else k ∷ (q ++ (key ∷ []))

get_or-last : (q : List ℕ) (x : ℕ) → get_or (q ++ (x ∷ [])) (length q) 0 ≡ x
get_or-last [] x = refl
get_or-last (y ∷ q) x = get_or-last q x

get_or-front : (q : List ℕ) (x i : ℕ) → i < length q → get_or (q ++ (x ∷ [])) i 0 ≡ get_or q i 0
get_or-front [] x i h = elim h [ ]
get_or-front (y ∷ q) x zero h = refl
get_or-front (y ∷ q) x (suc i) h = get_or-front q x i (omega arith)

length-last : (q : List ℕ) (x : ℕ) → length (q ++ (x ∷ [])) ≡ suc (length q)
length-last [] x = refl
length-last (y ∷ q) x = ap suc (length-last q x)

put_key-IsInput : (t : Input) (key : ℕ) → IsInput t → IsInput (put_key t key)
unfolding put_key
put_key-IsInput t key h = record {
  size = length-set t.buffer t.in_e key ∙ h.size;
  start = ground (arith, h.start);
  stop = ground (arith, h.stop);
}

-- Places in the ring.
module _ (s e : ℕ) (hs : s < 16) (he : e < 16) where
  not_full : (e + 16 - s) % 16 < 15 → (next_place e == s) ≡ false
  not_full l = ground (arith, l, hs, he)

  is_full : (e + 16 - s) % 16 ≡ 15 → (next_place e == s) ≡ true
  is_full l = ground (arith, l, hs, he)

  one_more : (e + 16 - s) % 16 < 15 → (next_place e + 16 - s) % 16 ≡ (e + 16 - s) % 16 + 1
  one_more l = ground (arith, l, hs, he)

  last_place : (s + (e + 16 - s) % 16) % 16 ≡ e
  last_place = omega (arith, hs, he)

  other_place : (i : ℕ) → i < (e + 16 - s) % 16 → e ≢ (s + i) % 16
  other_place i l h = omega (arith, l, h, hs, he)

  still_full : (e + 16 - s) % 16 ≡ 15 → (next_place e + 16 - next_place s) % 16 ≡ 15
  still_full l = ground (arith, l, hs, he)

  full_last : (e + 16 - s) % 16 ≡ 15 → (next_place s + 14) % 16 ≡ e
  full_last l = ground (arith, l, hs, he)

  full_next : (i : ℕ) → (next_place s + i) % 16 ≡ (s + suc i) % 16
  full_next i = ground (arith, hs)

  one_less : 0 < (e + 16 - s) % 16 → (e + 16 - next_place s) % 16 ≡ (e + 16 - s) % 16 - 1
  one_less l = ground (arith, l, hs, he)

  empty_places : (e + 16 - s) % 16 ≡ 0 → (e == s) ≡ true
  empty_places l = ground (arith, l, hs, he)

  not_empty : 0 < (e + 16 - s) % 16 → (e == s) ≡ false
  not_empty l = ground (arith, l, hs, he)

-- Behind a key that finds room.
put_room :
    (t : Input) (key : ℕ)
    → IsInput t
    → waiting t < 15
    → put_key t key
      ≡ record { buffer = set t.buffer t.in_e key; in_s = t.in_s; in_e = next_place t.in_e }
unfolding put_key
put_room t key h l = rw (not_full t.in_s t.in_e h.start h.stop l) refl

put_full :
    (t : Input) (key : ℕ)
    → IsInput t
    → waiting t ≡ 15
    → put_key t key ≡ record {
      buffer = set t.buffer t.in_e key;
      in_s = next_place t.in_s;
      in_e = next_place t.in_e;
    }
unfolding put_key
put_full t key h l = rw (is_full t.in_s t.in_e h.start h.stop l) refl

-- Every queue but the full one takes the key at its end.
room-Queue :
    (t : Input) (q : List ℕ) (key : ℕ)
    → Queue t q
    → length q < 15
    → Queue (put_key t key) (q ++ (key ∷ []))
room-Queue t q key h l =
    let room : waiting t < 15 = omega (arith, h.count, l) in
    let eq = put_room t key h.valid room in
    record {
      valid = put_key-IsInput t key h.valid;
      count =
          ap waiting eq
          ∙ one_more t.in_s t.in_e h.valid.start h.valid.stop room
          ∙ ap (λ n. n + 1) h.count
          ∙ omega (arith, length-last q key);
      keys = λ i l'. ap (λ u. key_at u i) eq ∙ elim (eq_or_ne i (length q)) [
        | inl e ↦
            let place : (t.in_s + i) % 16 ≡ t.in_e =
              ap (λ n. (t.in_s + n) % 16) (e ∙ sym h.count)
              ∙ last_place t.in_s t.in_e h.valid.start h.valid.stop in
            ap (λ n. get_or (set t.buffer t.in_e key) n 0) place
            ∙ get_or-set_self t.buffer t.in_e key 0 (omega (arith, h.valid.size, h.valid.stop))
            ∙ sym (ap (λ n. get_or (q ++ (key ∷ [])) n 0) e ∙ get_or-last q key)
        | inr ne ↦
            let inside : i < length q = omega (arith, l', ne, length-last q key) in
            get_or-set_ne t.buffer t.in_e ((t.in_s + i) % 16) key 0 (
              other_place t.in_s t.in_e h.valid.start h.valid.stop i
                (omega (arith, inside, h.count)))
            ∙ h.keys i inside
            ∙ sym (get_or-front q key i inside)
      ];
    }

-- The full one loses its first key.
full-Queue :
    (t : Input) (k : ℕ) (q : List ℕ) (key : ℕ)
    → Queue t (k ∷ q)
    → length q ≡ 14
    → Queue (put_key t key) (q ++ (key ∷ []))
full-Queue t k q key h l =
    let full : waiting t ≡ 15 = omega (arith, h.count, l) in
    let eq = put_full t key h.valid full in
    record {
      valid = put_key-IsInput t key h.valid;
      count =
          ap waiting eq
          ∙ still_full t.in_s t.in_e h.valid.start h.valid.stop full
          ∙ omega (arith, length-last q key, l);
      keys = λ i l'. ap (λ u. key_at u i) eq ∙ elim (eq_or_ne i (length q)) [
        | inl e ↦
            let place : (next_place t.in_s + i) % 16 ≡ t.in_e =
              ap (λ n. (next_place t.in_s + n) % 16) (e ∙ l)
              ∙ full_last t.in_s t.in_e h.valid.start h.valid.stop full in
            ap (λ n. get_or (set t.buffer t.in_e key) n 0) place
            ∙ get_or-set_self t.buffer t.in_e key 0 (omega (arith, h.valid.size, h.valid.stop))
            ∙ sym (ap (λ n. get_or (q ++ (key ∷ [])) n 0) e ∙ get_or-last q key)
        | inr ne ↦
            let inside : i < length q = omega (arith, l', ne, length-last q key) in
            ap (λ n. get_or (set t.buffer t.in_e key) n 0)
              (full_next t.in_s t.in_e h.valid.start h.valid.stop i)
            ∙ get_or-set_ne t.buffer t.in_e ((t.in_s + suc i) % 16) key 0 (
                other_place t.in_s t.in_e h.valid.start h.valid.stop (suc i)
                  (omega (arith, inside, h.count)))
            ∙ h.keys (suc i) (omega arith)
            ∙ sym (get_or-front q key i inside)
      ];
    }

-- `irq_tty_keyboard` puts a key behind those that wait; where 15 wait, the oldest one is lost.
pub put_key-Queue :
    (t : Input) (q : List ℕ) (key : ℕ)
    → Queue t q
    → length q ≤ 15
    → Queue (put_key t key) (enqueue q key)
put_key-Queue t [] key h l = room-Queue t [] key h (omega arith)
put_key-Queue t (k ∷ q) key h l = elim (Bool-cases (length q == 14)) [
  | inl e ↦ rw e (full-Queue t k q key h (ground (arith, e)))
  | inr e ↦ rw e (room-Queue t (k ∷ q) key h (ground (arith, e, l)))
]

take_one :
    (t : Input) (k : ℕ) (q : List ℕ)
    → Queue t (k ∷ q)
    → (take_key t ≡ some (k % 256, record t { in_s = next_place t.in_s }))
      × Queue (record t { in_s = next_place t.in_s }) q
unfolding take_key
take_one t k q h =
    let some_key : 0 < waiting t = omega (arith, h.count) in
    let oldest : get_or t.buffer t.in_s 0 ≡ k =
      ap (λ n. get_or t.buffer n 0) (omega (arith, h.valid.start)) ∙ h.keys 0 (omega arith) in
    (
      rw (not_empty t.in_s t.in_e h.valid.start h.valid.stop some_key, oldest) refl,
      record {
        valid = record {
          size = h.valid.size;
          start = ground (arith, h.valid.start);
          stop = h.valid.stop;
        };
        count = one_less t.in_s t.in_e h.valid.start h.valid.stop some_key ∙ omega (arith, h.count);
        keys = λ i l.
            ap (λ n. get_or t.buffer n 0) (full_next t.in_s t.in_e h.valid.start h.valid.stop i)
            ∙ h.keys (suc i) (omega arith);
      },
    )

take_none : (t : Input) → Queue t [] → take_key t ≡ none
unfolding take_key
take_none t h =
    let empty : (t.in_e == t.in_s) ≡ true =
      empty_places t.in_s t.in_e h.valid.start h.valid.stop h.count in
    rw empty refl

-- `tty_read` takes the keys that wait in their order, as bytes, up to the number that it is to read, and
-- waits for the others; the keys that it does not take still wait.
pub tty_read-Queue :
    (size : ℕ) (t : Input) (q : List ℕ)
    → Queue t q
    → ((tty_read size t).bytes ≡ as_bytes (take size q))
      × ((tty_read size t).left ≡ size - length q)
      × Queue (tty_read size t).input (drop size q)
unfolding tty_read
tty_read-Queue zero t q h = (refl, omega arith, h)
tty_read-Queue (suc size) t [] h = rw (take_none t h) (refl, omega arith, h)
tty_read-Queue (suc size) t (k ∷ q) h =
    let (e, h') = take_one t k q h in
    let (bytes, left, rest) = tty_read-Queue size (record t { in_s = next_place t.in_s }) q h' in
    rw e (ap (λ bs. k % 256 ∷ bs) bytes, left ∙ omega arith, rest)
