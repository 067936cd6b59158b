-- ===== src/Ext2/Directory/Tests.antt =====
-- Directories of one block on a device, and the theorems on names applied to them.
use nupkux.Base.{ℕ, ◌≡◌, refl, List, [], ◌∷◌, ◌++◌, replicate, get_or, Option, some, pos}
use nupkux.Ext2.{Blocks, Ext2Inode, ext2_read}
use nupkux.Ext2.Directory.{ext2_lookup, ext2_readdir}
use nupkux.Ext2.Entries.{DirEntry, ext2_lookup_ends}

-- "a" with the inode 11
abbrev block : List ℕ
block = (11 ∷ 0 ∷ 0 ∷ 0 ∷ 0 ∷ 4 ∷ 1 ∷ 2 ∷ 97 ∷ []) ++ replicate 1015 0

abbrev device : ℕ → ℕ → Option (List ℕ)
device sector n = some block

abbrev sb : Blocks
sb = record { blocksize = 1024; skip_bytes = 1024; bsize = 512 }

abbrev dir : Ext2Inode
dir = record { i_block = 5 ∷ []; size = 1024 }

abbrev fresh : List ℕ
fresh = replicate 1024 0

-- Behind the buffer stands "z" with the inode 99.
abbrev behind : ℕ → ℕ
behind a = get_or (replicate 1024 0 ++ (99 ∷ 0 ∷ 0 ∷ 0 ∷ 12 ∷ 0 ∷ 1 ∷ 1 ∷ 122 ∷ [])) a 0

abbrev a_entry : DirEntry
a_entry = record { inode = 11; rec = 1024; name = 97 ∷ [] }

abbrev z_entry : DirEntry
z_entry = record { inode = 99; rec = 12; name = 122 ∷ [] }

read_block : ext2_read device sb dir 0 1024 fresh fresh ≡ some (pos 1024, block)
unfolding ext2_read nupkux.Ext2.read_range nupkux.Ext2.read_blocks nupkux.Ext2.read_part
    nupkux.Ext2.ext2_read_block nupkux.Drivers.fs_read_block
read_block = refl

ext2_lookup_ends_example :
    (found : Option ℕ) × (ext2_lookup device sb dir (98 ∷ []) fresh fresh behind ≡ some found)
ext2_lookup_ends_example =
    ext2_lookup_ends device sb dir (98 ∷ []) fresh fresh behind block (pos 1024) read_block

-- The first entry and its number
first_entry :
    ext2_readdir device sb dir 0 fresh fresh behind
    ≡ some (pos 0, some (record { d_ino = 11; d_name = 97 ∷ []; d_namlen = 1; d_type = 0 }))
unfolding ext2_readdir ext2_read nupkux.Ext2.read_range nupkux.Ext2.read_blocks
    nupkux.Ext2.read_part nupkux.Ext2.ext2_read_block nupkux.Drivers.fs_read_block
    nupkux.Ext2.Directory.nth_entry nupkux.CString.strncpy nupkux.CString.strlen
    nupkux.CString.fill_zero
first_entry = refl
