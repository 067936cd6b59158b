-- ===== src/Tty/Bounds/Number.antt =====
-- The numbers of an escape sequence with at most nine digits are no larger than an `int`.
use nupkux.Base.{
  ℕ, zero, suc, ◌+◌, ◌-◌, ◌*◌, ◌/◌, ◌%◌, ◌^◌, ◌≤◌, ◌<◌, ◌≡◌, if◌then◌else◌, List, [], ◌∷◌, length,
  take, drop, set, some, arith, Option-cases, inl, inr,
}
use nupkux.CString.{strchr}
use nupkux.Tty.Escape.{is_digit, atoi_loop, atoi, param_or_one, two_numbers, c_string}

-- How many digits a string has.
abbrev pub digits : List ℕ → ℕ
digits [] = 0
digits (c ∷ cs) = if is_digit c then suc (digits cs) else digits cs

-- What stays below 10 ^ 9 when k more digits are appended.
room : ℕ → ℕ
room zero = 10 ^ 9
room (suc k) = room k / 10

room_pos : (k : ℕ) → k ≤ 9 → 0 < room k
unfolding room
room_pos zero h = omega arith
room_pos (suc zero) h = omega arith
room_pos (suc (suc zero)) h = omega arith
room_pos (suc (suc (suc zero))) h = omega arith
room_pos (suc (suc (suc (suc zero)))) h = omega arith
room_pos (suc (suc (suc (suc (suc zero))))) h = omega arith
room_pos (suc (suc (suc (suc (suc (suc zero)))))) h = omega arith
room_pos (suc (suc (suc (suc (suc (suc (suc zero))))))) h = omega arith
room_pos (suc (suc (suc (suc (suc (suc (suc (suc zero)))))))) h = omega arith
room_pos (suc (suc (suc (suc (suc (suc (suc (suc (suc zero))))))))) h = omega arith
room_pos (suc (suc (suc (suc (suc (suc (suc (suc (suc (suc k)))))))))) h = absurd (omega arith)

room-le : (k : ℕ) → room k ≤ 10 ^ 9
unfolding room
room-le zero = omega arith
room-le (suc k) = omega (arith, room-le k)

atoi_loop-lt : (str : List ℕ) (res : ℕ) → res < room (digits str) → atoi_loop str res < 10 ^ 9
unfolding atoi_loop room
atoi_loop-lt [] res h = h
atoi_loop-lt (c ∷ cs) res h = ground (
  arith,
  room-le (digits cs),
  atoi_loop-lt cs ((10 * res + (c - b'0')) % 2 ^ 32),
  atoi_loop-lt cs res,
)

pub atoi-lt : (str : List ℕ) → digits str ≤ 9 → atoi str < 10 ^ 9
unfolding atoi
atoi-lt str h = atoi_loop-lt str 0 (room_pos (digits str) h)

pub param_or_one-lt : (str : List ℕ) → digits str ≤ 9 → param_or_one str < 10 ^ 9
unfolding param_or_one
param_or_one-lt [] h = omega arith
param_or_one-lt (c ∷ cs) h = ground (arith, atoi-lt (c ∷ cs) h)

pub digits-take-le : (n : ℕ) (str : List ℕ) → digits (take n str) ≤ digits str
digits-take-le zero str = omega arith
digits-take-le (suc n) [] = omega arith
digits-take-le (suc n) (c ∷ cs) = ground (arith, digits-take-le n cs)

pub digits-tail-le : (str : List ℕ) → digits (drop 1 str) ≤ digits str
digits-tail-le [] = omega arith
digits-tail-le (c ∷ cs) = ground arith

pub digits-c_string-le : (str : List ℕ) → digits (c_string str) ≤ digits str
digits-c_string-le [] = omega arith
digits-c_string-le (c ∷ cs) = ground (arith, digits-c_string-le cs)

pub digits-set-le : (str : List ℕ) (i c : ℕ) → digits (set str i c) ≤ digits str + digits (c ∷ [])
digits-set-le [] i c = omega arith
digits-set-le (d ∷ str) zero c = ground arith
digits-set-le (d ∷ str) (suc i) c = ground (arith, digits-set-le str i c)

digits-strchr-le :
    (str : List ℕ) (c : ℕ) {sep : List ℕ} → strchr str c ≡ some sep → digits sep ≤ digits str
unfolding strchr
digits-strchr-le [] c e = absurd (ground arith)
digits-strchr-le (d ∷ str) c {sep} e = ground (arith, digits-strchr-le str c {sep = sep})

pub two_numbers-lt :
    (params : List ℕ) (c : ℕ)
    → digits params ≤ 9
    → ((two_numbers params (strchr params c)).0 < 10 ^ 9)
      × ((two_numbers params (strchr params c)).1 < 10 ^ 9)
unfolding two_numbers
two_numbers-lt params c h = elim (Option-cases (strchr params c)) [
  | inl e ↦ rw (e, two_numbers) (param_or_one-lt params h, omega arith)
  | inr (sep, e) ↦
      rw (e, two_numbers)
        (
          param_or_one-lt (take (length params - length sep) params)
              (omega (arith, digits-take-le (length params - length sep) params)),
          param_or_one-lt (drop 1 sep)
              (omega (arith, digits-tail-le sep, digits-strchr-le params c e)),
        )
]
