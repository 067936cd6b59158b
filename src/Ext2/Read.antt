-- ===== src/Ext2/Read.antt =====
-- `ext2_read` on a file system with blocks of 1024 bytes: the bytes that it gives, and those it leaves out.
use nupkux.Base.{
  ℕ, zero, suc, ◌+◌, ◌-◌, ◌*◌, ◌/◌, ◌%◌, ◌^◌, ◌==◌, ◌<◌, ◌≤◌, ◌≡◌, refl, ◌∙◌, ap, ap₂, subst, inl,
  inr, ltb, List, get_or, length, drop, replicate, ◌++◌, true, false, Option, some, arith, lt_or_ge,
  pos,
}
use mathlib.Core.List.{append-nil}
use nupkux.Drivers.{copy_to}
use nupkux.Ext2.{
  Blocks, Ext2Inode, file_ext2_block, Reading, Part, copied, and_then, status_of, ext2_read_block,
  read_part, read_blocks, last_part, read_between, read_range, ext2_read,
}
use nupkux.Ext2.Copied.{get_or-drop, length-drop, drop_all, IsWritten, copy_to-IsWritten}

-- The bytes of a file whose blocks are `file`.
abbrev pub byte : (ℕ → List ℕ) → ℕ → ℕ
byte file j = get_or (file (j / 1024)) (j % 1024) 0

-- The first `n` bytes of the caller's buffer are those of the file from `offset` on, and the others
-- are what they were in `out`.
pub record IsCopied (file : ℕ → List ℕ) (offset : ℕ) (out : List ℕ) (n : ℕ) (r : Reading)
    : Type 0 where
  pub temp : length r.buf ≡ 1024
  pub place : r.place ≡ n
  pub room : length r.out ≡ length out
  pub done : (i : ℕ) → i < n → get_or r.out i 0 ≡ byte file (offset + i)
  pub rest : (i : ℕ) → n ≤ i → get_or r.out i 0 ≡ get_or out i 0

abbrev Gives : (ℕ → List ℕ) → ℕ → List ℕ → ℕ → Part → Type 0
Gives file offset out n p = (r : Reading) × (p ≡ copied r) × IsCopied file offset out n r

-- A file system with blocks of 1024 bytes, and a file whose blocks the device gives.
module _ (read : ℕ → ℕ → Option (List ℕ)) (skip bsize : ℕ) (node : Ext2Inode)
    (file : ℕ → List ℕ) where
  abbrev pub sb : Blocks
  sb = record { blocksize = 1024; skip_bytes = skip; bsize = bsize }

  -- The block `k` of the file: its number is 0 for a hole, which is read as zeros, and otherwise the device
  -- gives the bytes at the sectors of that block, where the block 1 is the first behind the skipped bytes.
  pub data Stored (k : ℕ) : Type 0 where
    hole : get_or node.i_block k 0 ≡ 0 → file k ≡ replicate 1024 0 → Stored k
    on_device :
        (b : ℕ)
        → get_or node.i_block k 0 ≡ suc b
        → read ((b * (1024 / bsize) + skip / bsize) % 2 ^ 32) (1024 / bsize % 2 ^ 32)
          ≡ some (file k)
        → Stored k

  -- The blocks up to the last one of the file are direct blocks, and each of them can be read.
  pub record IsFile (last : ℕ) : Type 0 where
    pub direct : last < 12
    pub stored : (k : ℕ) → k ≤ last → Stored k
    pub sizes : (k : ℕ) → k ≤ last → length (file k) ≡ 1024

  -- `ext2_read_block` of the block `k` of the file
  block_lem :
      (last k : ℕ) (buf : List ℕ)
      → IsFile last
      → k ≤ last
      → length buf ≡ 1024
      → ext2_read_block read sb (file_ext2_block node k) buf ≡ some (file k)
  unfolding ext2_read_block nupkux.Drivers.fs_read_block
  block_lem last k buf ok l len =
      let small : ltb k 12 ≡ true = ground (arith, l, ok.direct) in
      elim (ok.stored k l) [
        | hole e zeros ↦
            rw (small, e, zeros)
              (ap (λ xs. some (replicate 1024 0 ++ xs)) (drop_all 1024 buf (omega (arith, len)))
                ∙ ap some (append-nil (replicate 1024 0)))
        | on_device b e given ↦
            let some_block : (suc b == 0) ≡ false = ground arith in
            let number : suc b - 1 ≡ b = omega arith in
            let one : 1 * (1024 / bsize) ≡ 1024 / bsize = omega arith in
            rw (small, e, some_block, number, one) given
      ]

  module _ (last : ℕ) (ok : IsFile last) (offset : ℕ) (out : List ℕ) where
    part_byte :
        (k from m n i : ℕ) (r : Reading) (out' : List ℕ)
        → k ≤ last
        → from + m ≤ 1024
        → k * 1024 + from ≡ offset + n
        → IsCopied file offset out n r
        → IsWritten r.out n m (drop from (file k)) out'
        → i < n + m
        → get_or out' i 0 ≡ byte file (offset + i)
    part_byte k from m n i r out' kl fits e c w l = elim (lt_or_ge i n) [
      | inl before ↦ w.before i before ∙ c.done i before
      | inr inside ↦
          let block : k ≡ (offset + i) / 1024 = omega (arith, fits, e, inside, l) in
          let place : from + (i - n) ≡ (offset + i) % 1024 = omega (arith, fits, e, inside, l) in
          w.inside i inside l
          ∙ get_or-drop (file k) from (i - n)
          ∙ ap₂ (λ b p. get_or (file b) p 0) block place
    ]

    read_part_lem :
        (k from m n : ℕ) (r : Reading)
        → k ≤ last
        → from + m ≤ 1024
        → k * 1024 + from ≡ offset + n
        → n + m ≤ length out
        → IsCopied file offset out n r
        → Gives file offset out (n + m) (read_part read sb node k from m r)
    unfolding read_part
    read_part_lem k from m n r kl fits e room c =
        let (out', eq, w) =
          copy_to-IsWritten r.out n m (drop from (file k)) (omega (arith, room, c.room))
            (omega (arith, length-drop (file k) from, ok.sizes k kl, fits)) in
        let eq' : copy_to r.out r.place m (drop from (file k)) ≡ some out' =
          ap (λ p. copy_to r.out p m (drop from (file k))) c.place ∙ eq in
        (
          record { buf = file k; out = out'; place = r.place + m },
          rw (block_lem last k r.buf ok kl c.temp, eq') refl,
          record {
            temp = ok.sizes k kl;
            place = ap (λ p. p + m) c.place;
            room = w.same ∙ c.room;
            done = λ i l. part_byte k from m n i r out' kl fits e c w l;
            rest = λ i l. w.after i l ∙ c.rest i (omega (arith, l));
          },
        )

    and_then_lem :
        (p : Part) (f : Reading → Part) (n n' : ℕ)
        → Gives file offset out n p
        → ((r : Reading) → IsCopied file offset out n r → Gives file offset out n' (f r))
        → Gives file offset out n' (and_then p f)
    and_then_lem p f n n' (r, e, c) go =
        let (r', e', c') = go r c in (r', ap (λ q. and_then q f) e ∙ e', c')

    read_blocks_lem :
        (count k n : ℕ) (r : Reading)
        → k + count ≤ suc last
        → k * 1024 ≡ offset + n
        → n + count * 1024 ≤ length out
        → IsCopied file offset out n r
        → Gives file offset out (n + count * 1024) (read_blocks read sb node count k r)
    unfolding read_blocks
    read_blocks_lem zero k n r kl e room c =
        (r, refl, subst (λ j. IsCopied file offset out j r) (omega arith) c)
    read_blocks_lem (suc count) k n r kl e room c =
        let more : n + 1024 + count * 1024 ≡ n + suc count * 1024 = omega arith in
        subst (λ j. Gives file offset out j (read_blocks read sb node (suc count) k r)) more
          (and_then_lem (read_part read sb node k 0 1024 r) (read_blocks read sb node count (suc k))
            (n + 1024) (n + 1024 + count * 1024)
            (read_part_lem k 0 1024 n r (omega (arith, kl)) (omega arith) (omega (arith, e))
              (omega (arith, room)) c)
            (λ r' c'.
              read_blocks_lem count (suc k) (n + 1024) r' (omega (arith, kl)) (omega (arith, e))
                (omega (arith, room)) c'))

    -- The first block of the range.
    first_lem :
        (b_s : ℕ) (r : Reading)
        → b_s ≤ last
        → offset / 1024 ≡ b_s
        → 1024 - offset % 1024 ≤ length out
        → IsCopied file offset out 0 r
        → Gives file offset out
            (1024 - offset % 1024)
            (read_part read sb node b_s (offset % 1024) (1024 - offset % 1024) r)
    first_lem b_s r bl e room c =
        let all : 0 + (1024 - offset % 1024) ≡ 1024 - offset % 1024 = omega arith in
        subst
          (λ j.
            Gives file offset out j
              (read_part read sb node b_s (offset % 1024) (1024 - offset % 1024) r))
          all
          (read_part_lem b_s (offset % 1024) (1024 - offset % 1024) 0 r bl (omega arith)
            (omega (arith, e)) (omega (arith, room)) c)

    more_lem :
        (b_s b_e n N : ℕ) (r : Reading)
        → b_e ≤ last
        → offset / 1024 ≡ b_s
        → b_s < b_e
        → n < 1024
        → N + offset ≡ b_e * 1024 + n
        → N ≤ length out
        → IsCopied file offset out 0 r
        → Gives file offset out N (read_between read sb node b_s (offset % 1024) b_e n r)
    more_lem b_s b_e n N r bl e less small total room c =
        let test : (b_s == b_e) ≡ false = ground (arith, less) in
        let first : ℕ = 1024 - offset % 1024 in
        let whole : ℕ = first + (b_e - b_s - 1) * 1024 in
        and_then_lem (read_part read sb node b_s (offset % 1024) (1024 - offset % 1024) r)
          (λ r'.
            and_then (read_blocks read sb node (b_e - b_s - 1) (suc b_s) r')
              (last_part read sb node b_s b_e n))
          first N
          (first_lem b_s r (omega (arith, bl, less)) e (omega (arith, e, less, total, room)) c)
          (λ r' c'.
            and_then_lem (read_blocks read sb node (b_e - b_s - 1) (suc b_s) r')
              (last_part read sb node b_s b_e n) whole N
              (read_blocks_lem (b_e - b_s - 1) (suc b_s) first r' (omega (arith, bl, less))
                (omega (arith, e)) (omega (arith, e, less, total, room)) c')
              (λ r'' c''. rw test (
                subst (λ j. Gives file offset out j (read_part read sb node b_e 0 n r''))
                  (omega (arith, e, less, total))
                  (read_part_lem b_e 0 n whole r'' bl (omega (arith, small))
                    (omega (arith, e, less)) (omega (arith, e, less, total, room)) c''))))

  -- What `ext2_read` gives where its tests let the whole range through.
  whole_range :
      (offset size : ℕ) (buffer fresh : List ℕ) (n : ℕ)
      → offset + size ≤ node.size
      → node.size < 2 ^ 32
      → Gives file offset buffer n
          (read_range read sb node offset size (record { buf = fresh; out = buffer; place = 0 }))
      → (r : Reading) × (ext2_read read sb node offset size buffer fresh ≡ some (pos size, r.out))
        × IsCopied file offset buffer n r
  unfolding ext2_read
  whole_range offset size buffer fresh n l small (r, e, c) =
      let inside : ltb node.size ((offset + size) % 2 ^ 32) ≡ false = ground (arith, l, small) in
      let before : ltb node.size offset ≡ false = ground (arith, l) in
      (r, rw (before, inside) (ap (λ p. status_of size p) e), c)

  start_lem :
      (offset : ℕ) (buffer fresh : List ℕ)
      → length fresh ≡ 1024
      → IsCopied file offset buffer 0 (record { buf = fresh; out = buffer; place = 0 })
  start_lem offset buffer fresh l = record {
    temp = l;
    place = refl;
    room = refl;
    done = λ i l'. absurd (omega (arith, l'));
    rest = λ i l'. refl;
  }

  -- Where the range ends at the end of a block and does not lie in one, `ext2_read` returns its size
  -- and leaves the last 1024 bytes of it as they were in the buffer.
  pub ext2_read_misses :
      (offset size : ℕ) (buffer fresh : List ℕ)
      → offset + size ≤ node.size
      → node.size < 2 ^ 32
      → IsFile (node.size / 1024)
      → length fresh ≡ 1024
      → size ≤ length buffer
      → offset / 1024 < (offset + size - 1) / 1024
      → (offset + size) % 1024 ≡ 0
      → (out : List ℕ) × (ext2_read read sb node offset size buffer fresh ≡ some (pos size, out))
        × ((i : ℕ) → size ≤ i + 1024 → get_or out i 0 ≡ get_or buffer i 0)
  unfolding read_range
  ext2_read_misses offset size buffer fresh l small ok fl room less ends =
      let b_e : ℕ = ((offset + size) % 2 ^ 32 + 2 ^ 32 - 1) % 2 ^ 32 / 1024 in
      let n : ℕ = (offset + size) % 2 ^ 32 % 1024 in
      let last : ℕ = node.size / 1024 in
      let from : Reading = record { buf = fresh; out = buffer; place = 0 } in
      let end : b_e ≡ (offset + size - 1) / 1024 = omega (arith, less, l, small) in
      let (r, e, c) = whole_range offset size buffer fresh (size - 1024) l small (
        more_lem last ok offset buffer (offset / 1024) b_e n (size - 1024) from
          (omega (arith, end, l)) refl (omega (arith, end, less)) (omega arith)
          (omega (arith, end, ends, l, small, less)) (omega (arith, room))
          (start_lem offset buffer fresh fl)) in
      (r.out, e, λ i l'. c.rest i (omega (arith, l')))
