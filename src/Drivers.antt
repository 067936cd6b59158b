-- ===== src/Drivers.antt =====
-- What the block devices share: the queue of requests of src/drivers/drivers.c, the RAM disk of
-- src/drivers/ramdisk.c, and `fs_read_block` of src/fs/vfs/buffer.c.
pub mod Lock
pub mod Ramdisk
mod Tests
use nupkux.Base.{
  ℕ, zero, suc, ◌+◌, ◌-◌, ◌*◌, ◌/◌, ◌%◌, ◌^◌, ◌==◌, ltb, if◌then◌else◌, List, [], ◌∷◌, ◌++◌, Bool,
  true, false, Option, none, some, ◌>>=◌, behind, take, drop, length,
}

-- `dev->queue`: the pids of the requests, the oldest first. What `device_lock` does before its loop:
unfoldable pub add_request : ℕ → List ℕ → List ℕ
add_request pid queue = queue ++ (pid ∷ [])

-- The test that ends the loop of `device_lock`; a null pointer is followed where there is no request.
unfoldable pub may_pass : ℕ → List ℕ → Option Bool
may_pass pid [] = none
may_pass pid (p ∷ queue) = some (p == pid)

abbrev pub first_pid : List ℕ → Option ℕ
first_pid [] = none
first_pid (p ∷ queue) = some p

-- `device_unlock`: the queue, and the pid that SIGCONT goes to.
unfoldable pub device_unlock : ℕ → List ℕ → Option (List ℕ × Option ℕ)
device_unlock pid [] = none
device_unlock pid (p ∷ queue) =
    if p == pid then some (queue, first_pid queue) else some (p ∷ queue, none)

-- `requesting_pid`; `none` is -1.
abbrev pub requesting_pid : List ℕ → Option ℕ
requesting_pid queue = first_pid queue

abbrev pub sector_size : ℕ
sector_size = 512

abbrev pub sector_count : ℕ
sector_count = 2880

-- `memcpy(buf, mem + off, size)`: `none` where the bytes are not all there.
abbrev pub copy_from : List ℕ → ℕ → ℕ → Option (List ℕ)
copy_from mem zero zero = some []
copy_from [] zero (suc size) = none
copy_from (b ∷ mem) zero (suc size) = behind b (copy_from mem zero size)
copy_from [] (suc off) size = none
copy_from (b ∷ mem) (suc off) size = copy_from mem off size

-- `memcpy(mem + off, buf, size)`
abbrev pub copy_to : List ℕ → ℕ → ℕ → List ℕ → Option (List ℕ)
copy_to mem zero zero buf = some mem
copy_to [] zero (suc size) buf = none
copy_to (b ∷ mem) zero (suc size) [] = none
copy_to (b ∷ mem) zero (suc size) (c ∷ buf) = behind c (copy_to mem zero size buf)
copy_to [] (suc off) size buf = none
copy_to (b ∷ mem) (suc off) size buf = behind b (copy_to mem off size buf)

-- REQUEST_READ, REQUEST_WRITE and any other command
pub data Request : Type 0 where
  request_read request_write request_other : Request

-- A disk with its queue, the caller's buffer, and the number of sectors that is returned.
pub record Disk : Type 0 where
  pub queue : List ℕ
  pub mem : List ℕ

pub record Answer : Type 0 where
  pub count : ℕ
  pub disk : Disk
  pub buffer : List ℕ

-- The `switch` over the command.
unfoldable pub transfer : Request → ℕ → ℕ → List ℕ → List ℕ → Option (List ℕ × List ℕ)
transfer request_read off size mem buffer =
    copy_from mem off size >>= λ buf. some (mem, buf ++ drop size buffer)
transfer request_write off size mem buffer =
    copy_to mem off size buffer >>= λ mem'. some (mem', buffer)
transfer request_other off size mem buffer = some (mem, buffer)

abbrev pub unlocked : ℕ → ℕ → List ℕ → List ℕ × List ℕ → Option Answer
unlocked pid count queue (mem, buffer) = device_unlock pid queue >>= λ r.
    some (record { count = count; disk = record { queue = r.0; mem = mem }; buffer = buffer })

-- `ramdisk_request` of the task that has passed `device_lock`; the sums and products are ULONGs.
unfoldable pub ramdisk_request : ℕ → Request → ℕ → ℕ → List ℕ → Disk → Option Answer
ramdisk_request pid cmd sector count buffer d =
    let number =
      if ltb sector_count ((sector + count) % 2 ^ 32) then sector_count - sector else count in
    let moved =
      transfer cmd (sector * sector_size % 2 ^ 32) (number * sector_size % 2 ^ 32) d.mem buffer
      >>= unlocked pid number d.queue in
    if ltb sector_count sector
    then some (record { count = 0; disk = d; buffer = buffer })
    else moved

-- What `fs_read_block` asks the device for: a sector and a number of sectors.
unfoldable pub fs_read_block : ℕ → ℕ → ℕ → ℕ → ℕ → ℕ × ℕ
fs_read_block skip_bytes blocksize bsize block count =
    let start_sector = skip_bytes / bsize in
    let sec_block = blocksize / bsize in
    ((block * sec_block + start_sector) % 2 ^ 32, count * sec_block % 2 ^ 32)
