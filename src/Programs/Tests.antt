-- ===== src/Programs/Tests.antt =====
-- A small image and the arguments of a program, and the theorems applied to them.
use nupkux.Base.{
  ℕ, ◌-◌, ◌*◌, ◌≡◌, refl, inr, List, [], ◌∷◌, get_or, length, some, none, true, arith,
}
use nupkux.Programs.{Status, success, Phdr, Space, ehdr_at, load_elf, elf_load_segment, noelf}
use nupkux.Programs.Load.{elf_load_segment_bss}
use nupkux.Programs.Stack.{write_vector, make_new_stack}
use nupkux.Programs.Stack.Words.{Addresses, Strings, SameFrom, total}
use nupkux.Programs.Stack.Vector.{write_vector-Addresses}

-- A header at 4096 without program headers, for the entry 32768.
abbrev header : List ℕ
header =
    127 ∷ 69 ∷ 76 ∷ 70 ∷ 1 ∷ 1 ∷ 1 ∷ 0 ∷ 0 ∷ 0 ∷ 0 ∷ 0 ∷ 0 ∷ 0 ∷ 0 ∷ 0 ∷ 2 ∷ 0 ∷ 3 ∷ 0 ∷ 1 ∷ 0 ∷ 0
    ∷ 0 ∷ 0 ∷ 128 ∷ []

abbrev image : Space
image = record { memory = λ a. get_or header (a - 4096) 0; pages = [] }

loads : (load_elf 4096 true image).status ≡ success
unfolding load_elf nupkux.Programs.check_header nupkux.Programs.load_segments
loads = refl

no_header : (load_elf 5000 true image).status ≡ noelf
unfolding load_elf nupkux.Programs.check_header
no_header = refl

-- 20 bytes from the file and 12 more
abbrev segment : Phdr
segment = record { p_type = 1; p_offset = 0; p_vaddr = 65536; p_filesz = 20; p_memsz = 32 }

elf_load_segment_bss_example :
    (elf_load_segment 4096 segment image).memory 65560 ≡ image.memory 65560
elf_load_segment_bss_example = elf_load_segment_bss 4096 segment image 65560 (inr (omega arith))

-- "sh" and "-c"
abbrev arguments : List (List ℕ)
arguments = (115 ∷ 104 ∷ []) ∷ (45 ∷ 99 ∷ []) ∷ []

new_stack : (make_new_stack arguments none 2147483648 (λ a. 0)).0 ≡ 2147483618
unfolding make_new_stack write_vector
new_stack = refl

write_vector-Addresses_example :
    ((write_vector (some arguments) 2147483648 (λ a. 0)).0
      ≡ 2147483648 - total arguments - 4 - 4 * length arguments)
    × Addresses
        (write_vector (some arguments) 2147483648 (λ a. 0)).1
        (2147483648 - total arguments - 4 - 4 * length arguments)
        (2147483648 - total arguments)
        arguments
    × Strings
        (write_vector (some arguments) 2147483648 (λ a. 0)).1
        (2147483648 - total arguments)
        arguments
    × SameFrom 2147483648 (λ a. 0) (write_vector (some arguments) 2147483648 (λ a. 0)).1
write_vector-Addresses_example =
    write_vector-Addresses arguments 2147483648 (λ a. 0) (omega arith) (omega arith)
