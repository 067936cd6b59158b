-- ===== src/Ext2/Tests.antt =====
-- A file of two blocks on a device, and the theorems applied to it.
use nupkux.Base.{ℕ, zero, suc, ◌≤◌, refl, List, [], ◌∷◌, replicate, Option, some, arith}
use nupkux.Ext2.{Ext2Inode}
use nupkux.Ext2.Read.{Stored, on_device}

-- Every byte of a block is the number of its first sector.
abbrev device : ℕ → ℕ → Option (List ℕ)
device sector n = some (replicate 1024 sector)

-- The blocks 5, 6 and 9 of the device
abbrev inode : Ext2Inode
inode = record { i_block = 5 ∷ 6 ∷ 9 ∷ []; size = 2100 }

abbrev sectors : ℕ → ℕ
sectors zero = 10
sectors (suc zero) = 12
sectors (suc (suc k)) = 18

abbrev contents : ℕ → List ℕ
contents k = replicate 1024 (sectors k)

stored : (k : ℕ) → k ≤ 2 → Stored device 1024 512 inode contents k
stored zero l = on_device 4 refl refl
stored (suc zero) l = on_device 5 refl refl
stored (suc (suc zero)) l = on_device 8 refl refl
stored (suc (suc (suc k))) l = absurd (omega (arith, l))
