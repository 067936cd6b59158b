-- ===== src/Drivers/Ramdisk.antt =====
-- `ramdisk_request`: what was written is read again, and what its tests miss.
use nupkux.Base.{
  ℕ, zero, suc, ◌+◌, ◌*◌, ◌%◌, ◌^◌, ◌==◌, ◌<◌, ◌≤◌, ◌≡◌, ◌≢◌, refl, sym, ◌∙◌, ap, ltb, List, [],
  ◌∷◌, ◌++◌, length, take, drop, true, false, none, some, arith, ==_refl,
}
use nupkux.Drivers.{
  device_unlock, may_pass, sector_size, sector_count, copy_from, copy_to, Request, request_read,
  request_write, Disk, transfer, ramdisk_request,
}

take_whole : (xs ys : List ℕ) → take (length xs) (xs ++ ys) ≡ xs
take_whole [] ys = refl
take_whole (x ∷ xs) ys = ap (λ l. x ∷ l) (take_whole xs ys)

-- A write within the memory, and the bytes that are read there then.
copy_to-copy_from :
    (mem : List ℕ) (off : ℕ) (buf : List ℕ)
    → off + length buf ≤ length mem
    → (mem' : List ℕ) × (copy_to mem off (length buf) buf ≡ some mem')
      × (length mem' ≡ length mem)
      × (copy_from mem' off (length buf) ≡ some buf)
copy_to-copy_from mem zero [] l = (mem, refl, refl, refl)
copy_to-copy_from [] zero (c ∷ buf) l = absurd (omega (arith, l))
copy_to-copy_from (b ∷ mem) zero (c ∷ buf) l =
    let (mem', e, n, e') = copy_to-copy_from mem 0 buf (omega (arith, l)) in
    (c ∷ mem', rw e refl, ap suc n, rw e' refl)
copy_to-copy_from [] (suc off) buf l = absurd (omega (arith, l))
copy_to-copy_from (b ∷ mem) (suc off) buf l =
    let (mem', e, n, e') = copy_to-copy_from mem off buf (omega (arith, l)) in
    (b ∷ mem', rw e refl, ap suc n, e')

copy_from-outside :
    (mem : List ℕ) (off size : ℕ) → length mem < off + size → copy_from mem off size ≡ none
copy_from-outside mem zero zero l = absurd (omega (arith, l))
copy_from-outside [] zero (suc size) l = refl
copy_from-outside (b ∷ mem) zero (suc size) l =
    rw (copy_from-outside mem 0 size (omega (arith, l))) refl
copy_from-outside [] (suc off) size l = refl
copy_from-outside (b ∷ mem) (suc off) size l = copy_from-outside mem off size (omega (arith, l))

-- Where the sectors are on the disk, the tests change nothing.
within :
    (sector count : ℕ)
    → sector + count ≤ sector_count
    → (ltb sector_count ((sector + count) % 2 ^ 32) ≡ false)
      × (ltb sector_count sector ≡ false)
      × (sector * sector_size % 2 ^ 32 ≡ sector * sector_size)
      × (count * sector_size % 2 ^ 32 ≡ count * sector_size)
within sector count l = (ground (arith, l), ground (arith, l), omega (arith, l), omega (arith, l))

module _ (sector count : ℕ) (l : sector + count ≤ sector_count) where
  write_lem :
      (pid : ℕ) (buf mem' : List ℕ) (d : Disk) (q : List ℕ)
      → d.queue ≡ pid ∷ q
      → copy_to d.mem (sector * sector_size) (count * sector_size) buf ≡ some mem'
      → ramdisk_request pid request_write sector count buf d
        ≡ some (record { count = count; disk = record { queue = q; mem = mem' }; buffer = buf })
  unfolding ramdisk_request transfer device_unlock
  write_lem pid buf mem' d q queue e =
      let (sum, first, off, bytes) = within sector count l in
      rw (first, sum, off, bytes, e, queue, ==_refl pid) refl

  read_lem :
      (pid : ℕ) (buf mem old q : List ℕ)
      → copy_from mem (sector * sector_size) (count * sector_size) ≡ some buf
      → ramdisk_request pid request_read sector count old (record { queue = pid ∷ q; mem = mem })
        ≡ some (record {
          count = count;
          disk = record { queue = q; mem = mem };
          buffer = buf ++ drop (count * sector_size) old;
        })
  unfolding ramdisk_request transfer device_unlock
  read_lem pid buf mem old q e =
      let (sum, first, off, bytes) = within sector count l in
      rw (sum, off, bytes, first, e, ==_refl pid) refl

-- The task with the oldest request writes sectors that are on the disk; when a task whose turn it is
-- reads them, it gets the bytes that were written, and both calls return the number of sectors.
pub ramdisk_request_roundtrip :
    (pid sector count : ℕ) (buf : List ℕ) (d : Disk) (q : List ℕ)
    → sector + count ≤ sector_count
    → length buf ≡ count * sector_size
    → length d.mem ≡ sector_count * sector_size
    → d.queue ≡ pid ∷ q
    → (mem' : List ℕ) × (ramdisk_request pid request_write sector count buf d
        ≡ some (record { count = count; disk = record { queue = q; mem = mem' }; buffer = buf }))
      × ((pid' : ℕ) (q' old : List ℕ)
          → ramdisk_request pid' request_read sector count old
              (record { queue = pid' ∷ q'; mem = mem' })
            ≡ some (record {
              count = count;
              disk = record { queue = q'; mem = mem' };
              buffer = buf ++ drop (count * sector_size) old;
            }))
ramdisk_request_roundtrip pid sector count buf d q l size mem_size queue =
    let (mem', written, same, read) =
      copy_to-copy_from d.mem (sector * sector_size) buf (omega (arith, l, size, mem_size)) in
    (
      mem',
      write_lem sector count l pid buf mem' d q queue
          (ap (λ n. copy_to d.mem (sector * sector_size) n buf) (sym size) ∙ written),
      λ pid' q' old.
          read_lem sector count l pid' buf mem' old q'
            (ap (λ n. copy_from mem' (sector * sector_size) n) (sym size) ∙ read),
    )

-- Where the sum of sector and count wraps around, a read goes past the end of the disk.
pub ramdisk_request_overflow :
    (pid sector count : ℕ) (buf : List ℕ) (d : Disk)
    → sector ≤ sector_count
    → count < 2 ^ 32
    → 2 ^ 32 ≤ sector + count
    → length d.mem ≡ sector_count * sector_size
    → ramdisk_request pid request_read sector count buf d ≡ none
unfolding ramdisk_request transfer
ramdisk_request_overflow pid sector count buf d l small wraps size =
    let sum : ltb sector_count ((sector + count) % 2 ^ 32) ≡ false =
      ground (arith, l, small, wraps) in
    let first : ltb sector_count sector ≡ false = ground (arith, l) in
    let far : length d.mem < sector * sector_size % 2 ^ 32 + count * sector_size % 2 ^ 32 =
      omega (arith, l, small, wraps, size) in
    rw
      (
        first,
        sum,
        copy_from-outside d.mem (sector * sector_size % 2 ^ 32) (count * sector_size % 2 ^ 32) far,
      )
      refl

-- A request behind the end of the disk returns 0 sectors and stays the oldest one, so that no other
-- task passes from then on.
pub ramdisk_request_stays :
    (pid sector count : ℕ) (cmd : Request) (buf : List ℕ) (d : Disk) (q : List ℕ)
    → sector_count < sector
    → d.queue ≡ pid ∷ q
    → (ramdisk_request pid cmd sector count buf d
        ≡ some (record { count = 0; disk = d; buffer = buf }))
      × ((pid' : ℕ) → pid ≢ pid' → may_pass pid' d.queue ≡ some false)
unfolding ramdisk_request may_pass
ramdisk_request_stays pid sector count cmd buf d q l queue =
    let first : ltb sector_count sector ≡ true = ground (arith, l) in
    (
      rw first refl,
      λ pid' ne. let other : (pid == pid') ≡ false = ground (arith, ne) in rw (queue, other) refl,
    )
