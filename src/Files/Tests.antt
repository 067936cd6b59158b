-- ===== src/Files/Tests.antt =====
-- Concrete runs of the table of open files, and the theorems applied to them.
use nupkux.Base.{
  negsuc, ℕ, ◌≡◌, refl, ◌<◌, [], ◌∷◌, length, replicate, none, some, not_some, pos, arith,
}
use nupkux.Files.Transfer.{Node, transfer_fs}
use nupkux.Files.{
  File, file_at, Files, vnode, entry, sys_open, free_fd, open_at, sys_close, sys_dup2, fork_files,
}
use nupkux.Files.Count.{IsCounted}
use nupkux.Files.Close.{Closes, sys_close-Closes}
use nupkux.Files.Share.{Dups, sys_dup2-Dups}
use nupkux.Files.Share.Fork.{fork_files-IsCounted}
use nupkux.Files.Share.Open.{Opens, sys_open-Opens, Opens-IsCounted}

abbrev no_files : Files
no_files = record {
  files = replicate 32 none;
  others = [];
  close_on_exec = 0;
  heap = [];
  closed = [];
}

no_files-IsCounted : IsCounted no_files
no_files-IsCounted = record {
  size = refl;
  counts = λ a. refl;
  alive = λ a f e. absurd (not_some e);
  tasks = omega arith;
}

-- One file is open for reading and writing.
abbrev one_file : Files
one_file = (sys_open no_files 2 (vnode 7 100)).state

one_file-IsCounted : IsCounted one_file
one_file-IsCounted =
    Opens-IsCounted no_files 2 (vnode 7 100) (sys_open no_files 2 (vnode 7 100)) no_files-IsCounted
      (sys_open-Opens no_files 2 (vnode 7 100) no_files-IsCounted)

first_entry : entry one_file 0 ≡ some 0
unfolding sys_open free_fd open_at
first_entry = refl

no_others : length one_file.others < 63
unfolding sys_open free_fd open_at
no_others = omega arith

sys_open-Opens_example : Opens no_files 2 (vnode 7 100) (sys_open no_files 2 (vnode 7 100))
sys_open-Opens_example = sys_open-Opens no_files 2 (vnode 7 100) no_files-IsCounted

sys_close-Closes_example : Closes one_file 0 (sys_close one_file (pos 0))
sys_close-Closes_example = sys_close-Closes one_file 0 one_file-IsCounted

sys_dup2-Dups_example : Dups one_file 0 5 (sys_dup2 one_file (pos 0) (pos 5))
sys_dup2-Dups_example = sys_dup2-Dups one_file 0 5 one_file-IsCounted (λ e. omega (arith, e))

fork_files-IsCounted_example :
    (s' : Files) × (fork_files one_file ≡ some s')
    × IsCounted s'
    × (s'.files ≡ one_file.files)
    × (s'.others ≡ (one_file.files ∷ one_file.others))
fork_files-IsCounted_example = fork_files-IsCounted one_file one_file-IsCounted no_others

-- A file of 100 bytes, open for writing at its end.
abbrev log_file : Files
log_file = (sys_open no_files 1025 (vnode 7 100)).state

abbrev log : File
log = record { fd = 0; flags = 2; node = 7; offset = 100; count = 1 }

log_entry : entry log_file 0 ≡ some 0
unfolding sys_open free_fd open_at
log_entry = refl

log_object : file_at log_file.heap 0 ≡ some log
unfolding sys_open free_fd open_at
log_object = refl

-- A file system with regular files that gives EIO.
abbrev broken : ℕ → Node
broken n = record { kind = 1; read = some (λ offset size. negsuc 4); write = none }

broken_read : transfer_fs 1 (some (λ offset size. negsuc 4)) 100 10 ≡ negsuc 4
unfolding transfer_fs
broken_read = refl
