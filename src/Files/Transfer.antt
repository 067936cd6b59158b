-- ===== src/Files/Transfer.antt =====
-- `sys_read` and `sys_write` of src/fs/read_write.c, and `read_fs` and `write_fs` of src/fs/vfs/vfs.c.
use nupkux.Base.{
  ℕ, ◌+◌, ◌-◌, ◌/◌, ◌%◌, ◌^◌, ◌≡◌, refl, ◌∙◌, ap, ap₂, ◌<◌, ◌≢◌, ◌==◌, ltb, leb, set, false, Option,
  none, some, ◌>>=◌, ℤ, pos, negsuc, neg, arith, if◌then◌else◌,
}
use nupkux.Vfs.{ioctl_fs}
use nupkux.Files.{File, Files, Answer, nr_open, ebadf, mode_bits, file_at, entry}

-- What the calls look at in a vnode: `flags & 7`, and the file system's `read` and `write` by offset and
-- size, if it has them. The bytes themselves go between the file system and the user's buffer.
pub record Node : Type 0 where
  pub kind : ℕ
  pub read : Option (ℕ → ℕ → ℤ)
  pub write : Option (ℕ → ℕ → ℤ)

abbrev pub fs_directory : ℕ
fs_directory = 2

abbrev pub fs_chardevice : ℕ
fs_chardevice = 3

-- `read_fs` and `write_fs`: -EISDIR, -EINVAL or what the operation returns
unfoldable pub transfer_fs : ℕ → Option (ℕ → ℕ → ℤ) → ℕ → ℕ → ℤ
transfer_fs kind none offset size = if kind == fs_directory then neg 21 else neg 22
transfer_fs kind (some op) offset size = if kind == fs_directory then neg 21 else op offset size

-- The conversions between `int` and `size_t`
abbrev pub to_size : ℤ → ℕ
to_size (pos n) = n % 2 ^ 32
to_size (negsuc n) = 2 ^ 32 - 1 - n % 2 ^ 32

abbrev pub to_status : ℕ → ℤ
to_status n = if ltb n (2 ^ 31) then pos n else negsuc (2 ^ 32 - 1 - n)

-- `if (!IS_CHR(f->node)) f->offset += size; return size;`
unfoldable pub advance : Files → ℕ → File → ℕ → ℕ → Answer
advance s a f kind size = record {
  result = to_status size;
  state = if kind == fs_chardevice then s else record s {
    heap = set s.heap a (some (record f { offset = (f.offset + size) % 2 ^ 32 }));
  };
}

-- `sys_read` of an open file; the test of the mode is `(!f->flags) & FMODE_READ`.
unfoldable pub read_file : (ℕ → Node) → Files → ℕ → ℕ → File → Answer
read_file nodes s size a f =
    if f.flags == 0
    then record { result = neg ebadf; state = s }
    else advance s a f (nodes f.node).kind
        (to_size (transfer_fs (nodes f.node).kind (nodes f.node).read f.offset size))

-- `sys_write` of an open file; the test of the mode is `!(f->flags & FMODE_WRITE)`.
unfoldable pub write_file : (ℕ → Node) → Files → ℕ → ℕ → File → Answer
write_file nodes s size a f =
    if (f.flags / 2) % 2 == 0
    then record { result = neg ebadf; state = s }
    else advance s a f (nodes f.node).kind
        (to_size (transfer_fs (nodes f.node).kind (nodes f.node).write f.offset size))

-- The guards that both share.
unfoldable pub with_file : Files → ℤ → (ℕ → File → Answer) → Option Answer
with_file s (negsuc fd) run = some (record { result = neg ebadf; state = s })
with_file s (pos fd) run =
    if leb nr_open fd then some (record { result = neg ebadf; state = s }) else elim (entry s fd) [
      | none ↦ some (record { result = neg ebadf; state = s })
      | some a ↦ file_at s.heap a >>= λ f. some (run a f)
    ]

unfoldable pub sys_read : (ℕ → Node) → Files → ℤ → ℕ → Option Answer
sys_read nodes s fd size = with_file s fd (read_file nodes s size)

unfoldable pub sys_write : (ℕ → Node) → Files → ℤ → ℕ → Option Answer
sys_write nodes s fd size = with_file s fd (write_file nodes s size)

abbrev pub applied : ℕ → ℕ → Option (ℕ → ℕ → ℤ) → Option ℤ
applied cmd arg none = none
applied cmd arg (some op) = some (op cmd arg)

-- `sys_ioctl`: what the file system's operation gives for the command and its argument, if there is one
unfoldable pub sys_ioctl : (ℕ → Option (ℕ → ℕ → ℤ)) → Files → ℤ → ℕ → ℕ → Option Answer
sys_ioctl ops s fd cmd arg =
    with_file s fd (λ a f. record { result = ioctl_fs (applied cmd arg (ops f.node)); state = s })

with_file_open :
    (s : Files) (fd a : ℕ) (f : File) (run : ℕ → File → Answer)
    → fd < nr_open
    → entry s fd ≡ some a
    → file_at s.heap a ≡ some f
    → with_file s (pos fd) run ≡ some (run a f)
unfolding with_file
with_file_open s fd a f run l e e' =
    let bound : leb nr_open fd ≡ false = ground (arith, l) in rw (bound, e, e') refl

mode_bits_ne : (flag : ℕ) → (mode_bits flag == 0) ≡ false
mode_bits_ne flag = ground arith

-- A file that `sys_open` opened can be read whatever the flags of that call were, also for writing only.
pub sys_read_always :
    (nodes : ℕ → Node) (s : Files) (fd a flag size : ℕ) (f : File)
    → fd < nr_open
    → entry s fd ≡ some a
    → file_at s.heap a ≡ some f
    → f.flags ≡ mode_bits flag
    → sys_read nodes s (pos fd) size
      ≡ some (
          advance s a f
            (nodes f.node).kind
            (to_size (transfer_fs (nodes f.node).kind (nodes f.node).read f.offset size)))
unfolding sys_read read_file
sys_read_always nodes s fd a flag size f l e e' m =
    let set_mode : (f.flags == 0) ≡ false = ap (λ n. n == 0) m ∙ mode_bits_ne flag in
    with_file_open s fd a f (read_file nodes s size) l e e' ∙ rw set_mode refl

status_back : (n : ℕ) → n < 2 ^ 31 → to_status (to_size (negsuc n)) ≡ negsuc n
status_back n h =
    let high : ltb (2 ^ 32 - 1 - n % 2 ^ 32) (2 ^ 31) ≡ false = ground (arith, h) in
    let same : 2 ^ 32 - 1 - (2 ^ 32 - 1 - n % 2 ^ 32) ≡ n = ground (arith, h) in
    rw high (ap negsuc same)

back_by :
    (offset n : ℕ)
    → n < offset
    → offset < 2 ^ 32
    → (offset + (2 ^ 32 - 1 - n % 2 ^ 32)) % 2 ^ 32 ≡ offset - (n + 1)
back_by offset n h l = ground (arith, h, l)

-- A read that the file system answers with the error `n + 1` moves the offset of a file that is no
-- character device back by that number.
pub sys_read_error :
    (nodes : ℕ → Node) (s : Files) (fd a n size : ℕ) (f : File)
    → fd < nr_open
    → entry s fd ≡ some a
    → file_at s.heap a ≡ some f
    → f.flags ≢ 0
    → transfer_fs (nodes f.node).kind (nodes f.node).read f.offset size ≡ negsuc n
    → (nodes f.node).kind ≢ fs_chardevice
    → n < f.offset
    → f.offset < 2 ^ 32
    → n < 2 ^ 31
    → sys_read nodes s (pos fd) size
      ≡ some (record {
        result = negsuc n;
        state = record s { heap = set s.heap a (some (record f { offset = f.offset - (n + 1) })) };
      })
unfolding sys_read read_file advance
sys_read_error nodes s fd a n size f l e e' m failed regular lo hi small =
    let set_mode : (f.flags == 0) ≡ false = ground (arith, m) in
    let no_chr : ((nodes f.node).kind == fs_chardevice) ≡ false = ground (arith, regular) in
    with_file_open s fd a f (read_file nodes s size) l e e'
    ∙ rw (set_mode, failed, no_chr)
        (ap₂ {C = Option Answer}
          (λ r o. some (record {
            result = r;
            state = record s { heap = set s.heap a (some (record f { offset = o })) };
          }))
          (status_back n small) (back_by f.offset n lo hi))
