-- ===== src/Drivers/Tests.antt =====
-- A device with requests and an empty RAM disk, and the theorems applied to them.
use nupkux.Base.{
  ℕ, ◌*◌, ◌≡◌, refl, List, [], ◌∷◌, ◌++◌, length, length-replicate, replicate, drop, some, arith,
}
use nupkux.Drivers.{
  ramdisk_request, request_read, request_write, may_pass, fs_read_block, sector_size, sector_count,
  add_request,
}
use nupkux.Drivers.Lock.{
  Device, Exclusive, asks, passes, start, next, Reachable, Reachable-Exclusive,
}
use nupkux.Drivers.Ramdisk.{ramdisk_request_roundtrip}

-- Tasks 7 and 9 ask, and 7 passes.
abbrev busy : Device
busy = record { queue = 7 ∷ 9 ∷ []; users = 7 ∷ [] }

busy-Reachable : Reachable (record { queue = []; users = [] }) busy
unfolding add_request may_pass
busy-Reachable = next (next (next start (asks 7)) (asks 9)) (passes 7 tt refl)

Reachable-Exclusive_example : Exclusive busy
Reachable-Exclusive_example = Reachable-Exclusive busy busy-Reachable

-- Block 3 of 1024 bytes behind 1024 bytes, in sectors of 512.
third_block : fs_read_block 1024 1024 512 3 1 ≡ (8, 2)
unfolding fs_read_block
third_block = refl

abbrev bytes : ℕ
bytes = sector_count * sector_size

zeros : (n : ℕ) → length {A = ℕ} (replicate n 0) ≡ n
zeros n = length-replicate n 0

unfoldable blank : List ℕ
blank = replicate bytes 0

blank_size : length blank ≡ bytes
unfolding blank
blank_size = zeros bytes

ramdisk_request_roundtrip_example :
    (mem' : List ℕ) × (ramdisk_request 7 request_write 2879 1
        (replicate 512 65)
        (record { queue = 7 ∷ []; mem = blank })
      ≡ some (record {
        count = 1;
        disk = record { queue = []; mem = mem' };
        buffer = replicate 512 65;
      }))
    × ((pid' : ℕ) (q' old : List ℕ)
        → ramdisk_request pid' request_read 2879 1 old (record { queue = pid' ∷ q'; mem = mem' })
          ≡ some (record {
            count = 1;
            disk = record { queue = q'; mem = mem' };
            buffer = replicate 512 65 ++ drop (1 * sector_size) old;
          }))
ramdisk_request_roundtrip_example =
    ramdisk_request_roundtrip 7 2879 1 (replicate 512 65) (record { queue = 7 ∷ []; mem = blank })
      [] (omega arith) refl blank_size refl
