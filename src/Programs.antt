-- ===== src/Programs.antt =====
-- Programs: `load_elf` of src/kernel/elf.c, and the stack of a new program of src/fs/exec.c.
pub mod Load
pub mod Stack
mod Tests
use nupkux.Base.{
  ℕ, zero, suc, ◌+◌, ◌-◌, ◌*◌, ◌/◌, ◌%◌, ◌^◌, ◌==◌, ltb, if◌then◌else◌, List, [], ◌∷◌, length, Bool,
  true, false, not, ◌&&◌, ◌||◌, Option, none, some,
}
use nupkux.Heap.{Bytes, read32, write8, write32, sub32, frame_size}
use nupkux.Heap.Alloc.{copy_bytes}

abbrev pub read16 : Bytes → ℕ → ℕ
read16 m a = m a + 256 * m (a + 1)

abbrev pub elf_magic : ℕ
elf_magic = 1179403647

-- The results LOAD_ELF_SUCCESS and so on
pub data Status : Type 0 where
  success invarg noelf machine support dynamic load : Status

-- The fields of `elf32_ehdr` that the code reads
pub record Ehdr : Type 0 where
  pub ei_magic : ℕ
  pub ei_class : ℕ
  pub ei_data : ℕ
  pub ei_version : ℕ
  pub e_type : ℕ
  pub e_machine : ℕ
  pub e_version : ℕ
  pub e_entry : ℕ
  pub e_phoff : ℕ
  pub e_phentsize : ℕ
  pub e_phnum : ℕ

abbrev pub ehdr_at : Bytes → ℕ → Ehdr
ehdr_at m a = record {
  ei_magic = read32 m a;
  ei_class = m (a + 4);
  ei_data = m (a + 5);
  ei_version = m (a + 6);
  e_type = read16 m (a + 16);
  e_machine = read16 m (a + 18);
  e_version = read32 m (a + 20);
  e_entry = read32 m (a + 24);
  e_phoff = read32 m (a + 28);
  e_phentsize = read16 m (a + 42);
  e_phnum = read16 m (a + 44);
}

-- The fields of `elf32_phdr` that the code reads
pub record Phdr : Type 0 where
  pub p_type : ℕ
  pub p_offset : ℕ
  pub p_vaddr : ℕ
  pub p_filesz : ℕ
  pub p_memsz : ℕ

abbrev pub phdr_at : Bytes → ℕ → Phdr
phdr_at m a = record {
  p_type = read32 m a;
  p_offset = read32 m (a + 4);
  p_vaddr = read32 m (a + 8);
  p_filesz = read32 m (a + 16);
  p_memsz = read32 m (a + 20);
}

-- The memory, and the addresses that `make_page` was called for, the latest first.
pub record Space : Type 0 where
  pub memory : Bytes
  pub pages : List ℕ

-- The loop of `elf_load_segment`, with as many turns left as the segment can have pages.
abbrev pub segment_pages : ℕ → ℕ → ℕ → List ℕ → List ℕ
segment_pages zero i stop pages = pages
segment_pages (suc left) i stop pages =
    let rest = segment_pages left ((i + frame_size) % 2 ^ 32) stop (i ∷ pages) in
    if ltb i stop then rest else pages

-- `memset(target, 0, n)`
abbrev pub zero_bytes : ℕ → ℕ → Bytes → Bytes
zero_bytes target zero m = m
zero_bytes target (suc n) m = zero_bytes (target + 1) n (write8 m target 0)

-- `elf_load_segment`, which always returns 0; the addresses that `memcpy` and `memset` go through do not
-- wrap at 2^32 here, where a segment would reach over the end of the memory.
unfoldable pub elf_load_segment : ℕ → Phdr → Space → Space
elf_load_segment image seg s =
    let size = if ltb seg.p_memsz seg.p_filesz then seg.p_memsz else seg.p_filesz in
    let source = (image + seg.p_offset) % 2 ^ 32 in
    let copied = copy_bytes seg.p_vaddr source size s.memory in
    let cleared = zero_bytes ((source + seg.p_filesz) % 2 ^ 32) (size - seg.p_filesz) copied in
    record {
      memory = if ltb seg.p_filesz size then cleared else copied;
      pages =
          segment_pages (seg.p_memsz / frame_size + 2) (seg.p_vaddr / frame_size * frame_size)
            ((seg.p_vaddr + seg.p_memsz) % 2 ^ 32) s.pages;
    }

abbrev pub pt_load : ℕ
pt_load = 1

abbrev pub is_dynamic : ℕ → Bool
is_dynamic type = type == 2 || type == 5

-- The loop of `load_elf` over the program headers: `left` of them from the `i`-th one on.
unfoldable pub load_segments : ℕ → Ehdr → Bool → ℕ → ℕ → Space → Status × Space
load_segments image hdr pretend zero i s = (success, s)
load_segments image hdr pretend (suc left) i s =
    let seg = phdr_at s.memory ((image + hdr.e_phoff + i * hdr.e_phentsize) % 2 ^ 32) in
    let loaded = load_segments image hdr pretend left (suc i) (elf_load_segment image seg s) in
    let passed = load_segments image hdr pretend left (suc i) s in
    if is_dynamic seg.p_type
    then (dynamic, s)
    else if seg.p_type == pt_load && not pretend
    then loaded
    else passed

-- The tests of `load_elf`
unfoldable pub check_header : Ehdr → Status
check_header hdr =
    if not (hdr.ei_magic == elf_magic)
    then noelf
    else if not (hdr.ei_version == 1) || not (hdr.e_version == 1)
    then support
    else if not (hdr.ei_class == 1) || not (hdr.ei_data == 1) || not (hdr.e_machine == 3)
    then machine
    else if not (hdr.ei_version == 1) || not (hdr.e_version == 1) || not (hdr.e_type == 2)
    then support
    else success

-- The status of `load_elf`, the entry where it is written, and the memory.
pub record Loaded : Type 0 where
  pub status : Status
  pub entry : Option ℕ
  pub space : Space

abbrev pub with_entry : ℕ → Status × Space → Loaded
with_entry e (status, s) = record { status = status; entry = some e; space = s }

abbrev pub load_checked : ℕ → Ehdr → Bool → Space → Status → Loaded
load_checked image hdr pretend s success =
    with_entry hdr.e_entry (load_segments image hdr pretend hdr.e_phnum 0 s)
load_checked image hdr pretend s status = record { status = status; entry = none; space = s }

unfoldable pub load_elf : ℕ → Bool → Space → Loaded
load_elf image pretend s =
    let hdr = ehdr_at s.memory image in
    if image == 0
    then record { status = invarg; entry = none; space = s }
    else load_checked image hdr pretend s (check_header hdr)
