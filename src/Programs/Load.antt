-- ===== src/Programs/Load.antt =====
-- What `load_elf` refuses, and what loading a segment leaves as it was.
use nupkux.Base.{
  ℕ, zero, suc, ◌+◌, ◌*◌, ◌%◌, ◌^◌, ◌==◌, ◌<◌, ◌≤◌, ◌≡◌, ◌⊎◌, refl, sym, ◌∙◌, ap, inl, inr, ltb,
  Bool, true, false, Bool-cases, not, ◌||◌, arith, lt_or_ge, not_both, some,
}
use nupkux.Heap.{Bytes, write8}
use nupkux.Heap.Alloc.{copy_bytes}
use nupkux.Programs.{
  Status, success, invarg, noelf, machine, support, dynamic, load, Ehdr, ehdr_at, Phdr, phdr_at,
  Space, elf_magic, elf_load_segment, check_header, load_elf, load_checked, load_segments,
  is_dynamic,
}

-- A copy changes no byte outside its target.
copy_bytes_outside :
    (target src n : ℕ) (m : Bytes) (a : ℕ)
    → (a < target) ⊎ (target + n ≤ a)
    → copy_bytes target src n m a ≡ m a
copy_bytes_outside target src zero m a h = refl
copy_bytes_outside target src (suc n) m a (inl l) =
    let other : (a == target) ≡ false = ground (arith, l) in
    copy_bytes_outside (target + 1) (src + 1) n (write8 m target (m src)) a (inl (omega arith))
    ∙ rw other refl
copy_bytes_outside target src (suc n) m a (inr l) =
    let other : (a == target) ≡ false = ground (arith, l) in
    copy_bytes_outside (target + 1) (src + 1) n (write8 m target (m src)) a (inr (omega (arith, l)))
    ∙ rw other refl

-- `elf_load_segment` changes no byte outside the file's part of the segment: the rest of the segment,
-- which a program finds its variables without values in, is not cleared.
pub elf_load_segment_bss :
    (image : ℕ) (seg : Phdr) (s : Space) (a : ℕ)
    → (a < seg.p_vaddr) ⊎ (seg.p_vaddr + seg.p_filesz ≤ a)
    → (elf_load_segment image seg s).memory a ≡ s.memory a
unfolding elf_load_segment
elf_load_segment_bss image seg s a h = elim (lt_or_ge seg.p_memsz seg.p_filesz) [
  | inl l ↦
      let small : ltb seg.p_memsz seg.p_filesz ≡ true = ground (arith, l) in
      let never : ltb seg.p_filesz seg.p_memsz ≡ false = ground (arith, l) in
      rw (small, never)
        (copy_bytes_outside seg.p_vaddr ((image + seg.p_offset) % 2 ^ 32) seg.p_memsz s.memory a
          (elim h [ inl b ↦ inl b | inr b ↦ inr (omega (arith, b, l)) ]))
  | inr l ↦
      let large : ltb seg.p_memsz seg.p_filesz ≡ false = ground (arith, l) in
      let never : ltb seg.p_filesz seg.p_filesz ≡ false = ground arith in
      rw (large, never)
        (copy_bytes_outside seg.p_vaddr ((image + seg.p_offset) % 2 ^ 32) seg.p_filesz s.memory a h)
]

-- A header that passes the tests.
pub record IsHeader (hdr : Ehdr) : Type 0 where
  pub magic : hdr.ei_magic ≡ elf_magic
  pub class : hdr.ei_class ≡ 1
  pub encoding : hdr.ei_data ≡ 1
  pub version : (hdr.ei_version ≡ 1) × (hdr.e_version ≡ 1)
  pub machine : hdr.e_machine ≡ 3
  pub type : hdr.e_type ≡ 2

abbrev succeeded : Status → Bool
succeeded success = true
succeeded _ = false

refused : (st : Status) → succeeded st ≡ false → (P : Type 0) → st ≡ success → P
refused st wrong P h = absurd (not_both (succeeded st) (ap succeeded h) wrong)

pass : (b : Bool) → not b ≡ false → b ≡ true
pass true h = refl
pass false h = absurd (not_both true refl h)

check_header-IsHeader : (hdr : Ehdr) → check_header hdr ≡ success → IsHeader hdr
unfolding check_header
check_header-IsHeader hdr h = elim (Bool-cases (not (hdr.ei_magic == elf_magic))) [
  | inl t ↦ refused noelf refl (IsHeader hdr) (rw t at h)
  | inr t ↦
      let h1 = rw t at h in
      elim (Bool-cases (not (hdr.ei_version == 1) || not (hdr.e_version == 1))) [
        | inl t' ↦ refused support refl (IsHeader hdr) (rw t' at h1)
        | inr t' ↦
            let h2 = rw t' at h1 in
            elim (Bool-cases
              (not (hdr.ei_class == 1) || not (hdr.ei_data == 1) || not (hdr.e_machine == 3))) [
                | inl t'' ↦ refused machine refl (IsHeader hdr) (rw t'' at h2)
                | inr t'' ↦
                    let h3 = rw t'' at h2 in
                    elim (Bool-cases (hdr.e_type == 2)) [
                      | inr t3 ↦ refused support refl (IsHeader hdr) (rw t3 at h3)
                      | inl t3 ↦ record {
                        magic = ground (arith, t);
                        class = ground (arith, t'');
                        encoding = ground (arith, t'');
                        version = (ground (arith, t'), ground (arith, t'));
                        machine = ground (arith, t'');
                        type = ground (arith, t3);
                      }
                    ]
              ]
      ]
]

pretended :
    (image : ℕ) (hdr : Ehdr) (left i : ℕ) (s : Space)
    → (load_segments image hdr true left i s).1 ≡ s
unfolding load_segments
pretended image hdr zero i s = refl
pretended image hdr (suc left) i s =
    let type : ℕ =
      (phdr_at s.memory ((image + hdr.e_phoff + i * hdr.e_phentsize) % 2 ^ 32)).p_type in
    elim (Bool-cases (is_dynamic type)) [
      | inl t ↦ rw t refl
      | inr t ↦ elim (Bool-cases (type == 1)) [
        | inl t' ↦ rw (t, t') (pretended image hdr left (suc i) s)
        | inr t' ↦ rw (t, t') (pretended image hdr left (suc i) s)
      ]
    ]

checked :
    (image : ℕ) (hdr : Ehdr) (s : Space) (st : Status)
    → check_header hdr ≡ st
    → ((load_checked image hdr true s st).space ≡ s)
      × ((load_checked image hdr true s st).status ≡ success
          → IsHeader hdr × ((load_checked image hdr true s st).entry ≡ some hdr.e_entry))
checked image hdr s success h =
    (pretended image hdr hdr.e_phnum 0 s, λ ok. (check_header-IsHeader hdr h, refl))
checked image hdr s invarg h = (refl, λ ok. absurd (not_both true refl (sym (ap succeeded ok))))
checked image hdr s noelf h = (refl, λ ok. absurd (not_both true refl (sym (ap succeeded ok))))
checked image hdr s machine h = (refl, λ ok. absurd (not_both true refl (sym (ap succeeded ok))))
checked image hdr s support h = (refl, λ ok. absurd (not_both true refl (sym (ap succeeded ok))))
checked image hdr s dynamic h = (refl, λ ok. absurd (not_both true refl (sym (ap succeeded ok))))
checked image hdr s load h = (refl, λ ok. absurd (not_both true refl (sym (ap succeeded ok))))

-- The first call of `load_elf`, which pretends, changes nothing, and where it succeeds, the image has a
-- header of a 32-bit little-endian program for the 386, whose entry it gives.
pub load_elf-IsHeader :
    (image : ℕ) (s : Space)
    → ((load_elf image true s).space ≡ s)
      × ((load_elf image true s).status ≡ success
          → IsHeader (ehdr_at s.memory image)
            × ((load_elf image true s).entry ≡ some (ehdr_at s.memory image).e_entry))
unfolding load_elf
load_elf-IsHeader image s = elim (Bool-cases (image == 0)) [
  | inl t ↦ rw t (refl, λ ok. refused invarg refl _ ok)
  | inr t ↦
      rw t (checked image (ehdr_at s.memory image) s (check_header (ehdr_at s.memory image)) refl)
]
