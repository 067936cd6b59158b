-- ===== src/Programs/Stack.antt =====
-- The stack of a new program: `write_vector` and `make_new_stack` of src/fs/exec.c.
pub mod Words
pub mod Vector
use nupkux.Base.{
  ℕ, zero, suc, ◌+◌, ◌-◌, ◌*◌, ◌/◌, ◌%◌, ◌^◌, ◌==◌, ◌<◌, ◌≤◌, ◌≡◌, ◌≢◌, ◌⊎◌, refl, sym, ◌∙◌, ap,
  ap₂, subst, inl, inr, if◌then◌else◌, List, [], ◌∷◌, length, Bool, true, false, Bool-cases, Option,
  none, some, arith,
}
use nupkux.Heap.{Bytes, read32, write8, write32, sub32}

-- `strncpy(buf, s, strlen(s) + 1)`
abbrev pub put_string : ℕ → List ℕ → Bytes → Bytes
put_string a [] m = write8 m a 0
put_string a (c ∷ s) m = put_string (a + 1) s (write8 m a c)

-- The first loop of `write_vector`, from the last string on: the strings, each below the one behind it.
abbrev pub write_strings : List (List ℕ) → ℕ → Bytes → ℕ × Bytes
write_strings [] buf m = (buf, m)
write_strings (s ∷ vec) buf m =
    let (below, m') = write_strings vec buf m in
    let place = sub32 below (length s + 1) in (place, put_string place s m')

-- The second loop: the addresses of the strings; `oldbuf` goes down over the strings again.
pub record Pointers : Type 0 where
  pub oldbuf : ℕ
  pub buf : ℕ
  pub bytes : Bytes

abbrev pub next_pointer : ℕ → Pointers → Pointers
next_pointer size p =
    let oldbuf = sub32 p.oldbuf size in
    let buf = sub32 p.buf 4 in
    record { oldbuf = oldbuf; buf = buf; bytes = write32 p.bytes buf oldbuf }

abbrev pub write_pointers : List (List ℕ) → Pointers → Pointers
write_pointers [] p = p
write_pointers (s ∷ vec) p = next_pointer (length s + 1) (write_pointers vec p)

-- `write_vector`: the address of the vector, 0 for a null pointer, and the memory.
unfoldable pub write_vector : Option (List (List ℕ)) → ℕ → Bytes → ℕ × Bytes
write_vector none buf m = (0, m)
write_vector (some vec) buf m =
    let (below, m') = write_strings vec buf m in
    let end = sub32 below 4 in
    let p = write_pointers vec (record { oldbuf = buf; buf = end; bytes = write32 m' end 0 }) in
    (p.buf, p.bytes)

-- `if (envs) esp = envs;`
abbrev pub or_esp : ℕ → ℕ → ℕ
or_esp vec esp = if vec == 0 then esp else vec

-- The three words at the end of `make_new_stack`.
abbrev pub put_frame : ℕ → ℕ → ℕ → ℕ → Bytes → Bytes
put_frame esp argc args envs m =
    write32 (write32 (write32 m esp argc) (esp + 4) args) (esp + 8) envs

-- `make_new_stack` of a vector of arguments that is no null pointer
unfoldable pub make_new_stack : List (List ℕ) → Option (List (List ℕ)) → ℕ → Bytes → ℕ × Bytes
make_new_stack argv envp stack m =
    let (envs, m') = write_vector envp stack m in
    let (args, m'') = write_vector (some argv) (or_esp envs stack) m' in
    let esp = sub32 (or_esp args (or_esp envs stack)) 12 in
    (esp, put_frame esp (length argv) args envs m'')
