-- ===== src/Files.antt =====
-- src/fs/open.c and src/fs/fcntl.c: the open files of the tasks, and what `sys_fork` of
-- src/kernel/task.c and `sys_exit` of src/kernel/exit.c do to them.
pub mod Count
pub mod Close
pub mod Share
pub mod Transfer
mod Tests
use nupkux.Base.{
  ℕ, zero, suc, ◌+◌, ◌-◌, ◌/◌, ◌%◌, ◌^◌, ◌==◌, leb, if◌then◌else◌, List, [], ◌∷◌, length, get_or,
  set, ◌++◌, Bool, true, false, not, ◌&&◌, ◌||◌, Option, none, some, ◌>>=◌, ℤ, pos, negsuc, neg,
}

abbrev pub nr_open : ℕ
nr_open = 32

-- errno.h
abbrev pub ebadf : ℕ
ebadf = 9

abbrev pub emfile : ℕ
emfile = 24

-- `FILE`
pub record File : Type 0 where
  pub fd : ℕ
  pub flags : ℕ
  pub node : ℕ
  pub offset : ℕ
  pub count : ℕ

-- The table `files` of the current task and those of the other tasks, with the addresses of `FILE`s; the
-- `FILE`s at their addresses, `none` where one is freed; and the vnodes that were given back by
-- `close_fs` and `iput`, the last one first.
pub record Files : Type 0 where
  pub files : List (Option ℕ)
  pub others : List (List (Option ℕ))
  pub close_on_exec : ℕ
  pub heap : List (Option File)
  pub closed : List ℕ

pub record Answer : Type 0 where
  pub result : ℤ
  pub state : Files

-- `*f`
abbrev pub file_at : List (Option File) → ℕ → Option File
file_at heap a = get_or heap a none

-- `current_task->files[fd]`
abbrev pub entry : Files → ℕ → Option ℕ
entry s fd = get_or s.files fd none

-- `mask &= ~(1 << i)`
abbrev pub clear_bit : ℕ → ℕ → ℕ
clear_bit mask i = if (mask / 2 ^ i) % 2 == 1 then mask - 2 ^ i else mask

-- The end of `sys_close`: one reference less, and the last one gives the file back.
unfoldable pub release : Files → ℕ → File → Files
release s a f =
    if f.count == 0
    then s
    else if f.count - 1 == 0
    then record s { heap = set s.heap a none; closed = f.node ∷ s.closed }
    else record s { heap = set s.heap a (some (record f { count = f.count - 1 })) }

abbrev pub without_fd : Files → ℕ → Files
without_fd s fd = record s {
  files = set s.files fd none;
  close_on_exec = clear_bit s.close_on_exec fd;
}

-- `sys_close` behind its guards, with the table's entry.
unfoldable pub close_entry : Files → ℕ → Option ℕ → Option Answer
close_entry s fd none = some (record { result = neg ebadf; state = s })
close_entry s fd (some a) = file_at s.heap a >>= λ f.
    some (record { result = pos 0; state = release (without_fd s fd) a f })

-- `none` is a pointer followed that is null or freed.
unfoldable pub sys_close : Files → ℤ → Option Answer
sys_close s (negsuc fd) = some (record { result = neg ebadf; state = s })
sys_close s (pos fd) =
    if leb nr_open fd
    then some (record { result = neg ebadf; state = s })
    else close_entry s fd (entry s fd)

-- `f->count++`
abbrev pub retain : List (Option File) → ℕ → Option (List (Option File))
retain heap a =
    file_at heap a >>= λ f. some (set heap a (some (record f { count = (f.count + 1) % 2 ^ 32 })))

-- The end of `sys_dup2`, with what stands in `files[fd]` behind `sys_close(fd2)`.
unfoldable pub share : Files → ℕ → Option ℕ → Option Answer
share s fd2 none = none
share s fd2 (some a) = retain s.heap a >>= λ heap'. some (record {
  result = pos fd2;
  state = record s {
    files = set s.files fd2 (some a);
    close_on_exec = clear_bit s.close_on_exec fd2;
    heap = heap';
  };
})

-- `sys_dup2` behind its guards.
unfoldable pub dup_entry : Files → ℕ → ℕ → Option ℕ → Option Answer
dup_entry s fd fd2 none = some (record { result = neg ebadf; state = s })
dup_entry s fd fd2 (some a) = sys_close s (pos fd2) >>= λ r. share r.state fd2 (entry r.state fd)

unfoldable pub sys_dup2 : Files → ℤ → ℤ → Option Answer
sys_dup2 s (negsuc fd) fd2 = some (record { result = neg ebadf; state = s })
sys_dup2 s (pos fd) (negsuc fd2) = some (record { result = neg ebadf; state = s })
sys_dup2 s (pos fd) (pos fd2) =
    if leb nr_open fd || leb nr_open fd2
    then some (record { result = neg ebadf; state = s })
    else dup_entry s fd fd2 (entry s fd)

-- `for (fd = 0; fd < NR_OPEN; fd++) if (!files[fd]) break;`
unfoldable pub free_fd : ℕ → List (Option ℕ) → Option ℕ
free_fd i [] = none
free_fd i (o ∷ os) = let rest = free_fd (suc i) os in elim o [ none ↦ some i | some a ↦ rest ]

abbrev pub dup_in : Files → ℤ → Option ℕ → Option Answer
dup_in s fd none = some (record { result = neg emfile; state = s })
dup_in s fd (some fd2) = sys_dup2 s fd (pos fd2)

unfoldable pub sys_dup : Files → ℤ → Option Answer
sys_dup s fd = dup_in s fd (free_fd 0 s.files)

-- What `namei` returns: a vnode and its size, or a status.
pub data Lookup : Type 0 where
  vnode : ℕ → ℕ → Lookup
  fails : ℤ → Lookup

-- `FMODE_READ` and `FMODE_WRITE`, by the flags of the call.
abbrev pub mode_bits : ℕ → ℕ
mode_bits flag =
    (if flag % 4 == 0 || (flag / 2) % 2 == 1 then 1 else 0)
    + (if flag % 2 == 1 || (flag / 2) % 2 == 1 then 2 else 0)

-- `sys_open` in the free entry `fd`; `malloc` gives an address that no FILE had.
unfoldable pub open_at : Files → ℕ → ℕ → Lookup → Answer
open_at s fd flag (fails status) = record { result = status; state = s }
open_at s fd flag (vnode n size) = record {
  result = pos fd;
  state = record s {
    files = set s.files fd (some (length s.heap));
    close_on_exec = clear_bit s.close_on_exec fd;
    heap =
        s.heap
        ++ (some (record {
          fd = fd;
          flags = mode_bits flag;
          node = n;
          offset = if (flag / 1024) % 2 == 1 then size else 0;
          count = 1;
        })
            ∷ []);
  };
}

abbrev pub open_in : Files → ℕ → Lookup → Option ℕ → Answer
open_in s flag found none = record { result = neg emfile; state = s }
open_in s flag found (some fd) = open_at s fd flag found

-- `sys_open`, with the result of `namei` for the file's name
unfoldable pub sys_open : Files → ℕ → Lookup → Answer
sys_open s flag found = open_in s flag found (free_fd 0 s.files)

-- `if (newtask->files[i]) newtask->files[i]->count++;`
abbrev pub retain_entry : List (Option File) → Option ℕ → Option (List (Option File))
retain_entry heap none = some heap
retain_entry heap (some a) = retain heap a

-- The loop of `sys_fork` over a table: `for (i = NR_OPEN; i--;)`
unfoldable pub retain_down : ℕ → List (Option ℕ) → List (Option File) → Option (List (Option File))
retain_down zero os heap = some heap
retain_down (suc i) os heap =
    retain_entry heap (get_or os i none) >>= λ heap'. retain_down i os heap'

-- The files of `sys_fork`: the child has the same table.
unfoldable pub fork_files : Files → Option Files
fork_files s = retain_down nr_open s.files s.heap >>= λ heap'.
    some (record s { others = s.files ∷ s.others; heap = heap' })

-- The loop of `sys_exit`: `for (i = NR_OPEN; i--;) sys_close(i);`
unfoldable pub close_down : ℕ → Files → Option Files
close_down zero s = some s
close_down (suc i) s = sys_close s (pos i) >>= λ r. close_down i r.state
