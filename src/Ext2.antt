-- ===== src/Ext2.antt =====
-- Files of an ext2 file system: src/fs/ext2/inode.c, with `ext2_read_block` of src/fs/ext2/super.c.
pub mod Copied
pub mod Read
pub mod Directory
pub mod Entries
mod Tests
use nupkux.Base.{
  ℕ, zero, suc, ◌+◌, ◌-◌, ◌*◌, ◌/◌, ◌%◌, ◌^◌, ◌==◌, ltb, if◌then◌else◌, List, [], ◌∷◌, ◌++◌, get_or,
  length, take, drop, replicate, Bool, true, false, Option, none, some, ◌>>=◌, ℤ, pos, neg,
}
use nupkux.Drivers.{copy_to, fs_read_block}

-- What a super block says of its blocks, with the block size of its device.
pub record Blocks : Type 0 where
  pub blocksize : ℕ
  pub skip_bytes : ℕ
  pub bsize : ℕ

-- `i_block` and the size of the vnode
pub record Ext2Inode : Type 0 where
  pub i_block : List ℕ
  pub size : ℕ

abbrev pub ndir_blocks : ℕ
ndir_blocks = 12

-- `file_ext2_block`
abbrev pub file_ext2_block : Ext2Inode → ℕ → ℕ
file_ext2_block node block = if ltb block ndir_blocks then get_or node.i_block block 0 else 0

-- The temporary block, the caller's buffer, and how far `buffer` has moved in it.
pub record Reading : Type 0 where
  pub buf : List ℕ
  pub out : List ℕ
  pub place : ℕ

-- A `memcpy` past the buffer, a block that the device does not give, or the next state.
pub data Part : Type 0 where
  overrun : Part
  failed : List ℕ → Part
  copied : Reading → Part

abbrev pub write_part : List ℕ → ℕ → Option (List ℕ) → Part
write_part buf place none = overrun
write_part buf place (some out) = copied (record { buf = buf; out = out; place = place })

abbrev pub copy_part : ℕ → ℕ → Reading → Option (List ℕ) → Part
copy_part from n r none = failed r.out
copy_part from n r (some buf) =
    write_part buf (r.place + n) (copy_to r.out r.place n (drop from buf))

abbrev pub and_then : Part → (Reading → Part) → Part
and_then overrun next = overrun
and_then (failed out) next = failed out
and_then (copied r) next = next r

abbrev pub eio : ℕ
eio = 5

-- What `ext2_read` returns, and the caller's buffer; `none` is a write past it.
abbrev pub status_of : ℕ → Part → Option (ℤ × List ℕ)
status_of size overrun = none
status_of size (failed out) = some (neg eio, out)
status_of size (copied r) = some (pos size, r.out)

-- `read` gives the bytes of a number of sectors of the device from one on, or an error.
module _ (read : ℕ → ℕ → Option (List ℕ)) (sb : Blocks) where
  -- `ext2_read_block` into a block; the block 0 is a hole of the file.
  unfoldable pub ext2_read_block : ℕ → List ℕ → Option (List ℕ)
  ext2_read_block block buf =
      let (sector, n) = fs_read_block sb.skip_bytes sb.blocksize sb.bsize (block - 1) 1 in
      if block == 0 then some (replicate 1024 0 ++ drop 1024 buf) else read sector n

  -- A block of the file that is read, and the `memcpy` of `n` bytes of it from `from` on.
  unfoldable pub read_part : Ext2Inode → ℕ → ℕ → ℕ → Reading → Part
  read_part node block from n r =
      copy_part from n r (ext2_read_block (file_ext2_block node block) r.buf)

  -- The loop of `ext2_read` over the whole blocks: `count` blocks from `block` on.
  unfoldable pub read_blocks : Ext2Inode → ℕ → ℕ → Reading → Part
  read_blocks node zero block r = copied r
  read_blocks node (suc count) block r =
      and_then (read_part node block 0 sb.blocksize r) (read_blocks node count (suc block))

  -- `if (b_s != b_e)` of `ext2_read`: the last block
  abbrev pub last_part : Ext2Inode → ℕ → ℕ → ℕ → Reading → Part
  last_part node b_s b_e n r = if b_s == b_e then copied r else read_part node b_e 0 n r

  -- The first, the whole and the last blocks.
  abbrev pub read_between : Ext2Inode → ℕ → ℕ → ℕ → ℕ → Reading → Part
  read_between node b_s boff b_e n r =
      and_then (read_part node b_s boff (sb.blocksize - boff) r)
        (λ r'. and_then (read_blocks node (b_e - b_s - 1) (suc b_s) r') (last_part node b_s b_e n))

  -- `ext2_read` behind its tests
  unfoldable pub read_range : Ext2Inode → ℕ → ℕ → Reading → Part
  read_range node offset size r =
      let end = (offset + size) % 2 ^ 32 in
      let b_e = (end + 2 ^ 32 - 1) % 2 ^ 32 / sb.blocksize in
      read_between node (offset / sb.blocksize) (offset % sb.blocksize) b_e (end % sb.blocksize) r

  -- `ext2_read`; `fresh` is what the temporary block holds in the beginning.
  unfoldable pub ext2_read : Ext2Inode → ℕ → ℕ → List ℕ → List ℕ → Option (ℤ × List ℕ)
  ext2_read node offset size buffer fresh =
      let size' = if ltb node.size ((offset + size) % 2 ^ 32) then node.size - offset else size in
      if ltb node.size offset
      then some (pos 0, buffer)
      else status_of size'
          (read_range node offset size' (record { buf = fresh; out = buffer; place = 0 }))
