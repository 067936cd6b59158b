-- ===== src/Initrd/Reading.antt =====
-- `initrd_read` of src/fs/initrdfs/inode.c on an image that stores a file.
use nupkux.Base.{
  ℕ, zero, suc, ◌+◌, ◌-◌, ◌%◌, ◌^◌, ltb, ◌≡◌, ◌≤◌, ◌<◌, inl, inr, refl, sym, ◌∙◌, ap, ap₂, subst,
  List, [], ◌∷◌, ◌++◌, Bool-cases, some, ◌>>=◌, behind, length, take, drop, arith, ltb→lt, ltb→le,
}
use nupkux.Drivers.{copy_to}
use nupkux.Heap.{Bytes}
use nupkux.Initrd.{InitrdInode, Image, bytes_at, read_from}
use nupkux.Initrd.Layout.{Contents}

pub copy_to_front :
    (buffer bs : List ℕ)
    → length bs ≤ length buffer
    → copy_to buffer 0 (length bs) bs ≡ some (bs ++ drop (length bs) buffer)
copy_to_front buffer [] h = refl
copy_to_front [] (b ∷ bs) h = absurd (omega (arith, h))
copy_to_front (c ∷ buffer) (b ∷ bs) h = ap (behind b) (copy_to_front buffer bs (omega (arith, h)))

-- What is read of a file: at most `size` bytes from `offset` on
abbrev pub part : ℕ → ℕ → List ℕ → List ℕ
part offset size contents = take size (drop offset contents)

bytes_at-part :
    (m : Bytes) (a offset n : ℕ) (contents : List ℕ)
    → Contents m a contents
    → offset + n ≤ length contents
    → bytes_at m (a + offset) n ≡ part offset n contents
bytes_at-part m a zero zero contents h l = refl
bytes_at-part m a (suc offset) zero contents h l = refl
bytes_at-part m a zero (suc n) [] h l = absurd (omega (arith, l))
bytes_at-part m a zero (suc n) (b ∷ bs) (h, hs) l =
    let zero_add : a + 0 ≡ a = omega arith in
    rw zero_add (
      ap₂ (λ c l'. c ∷ l') h
        (ap (λ x. bytes_at m x n) (omega arith)
          ∙ bytes_at-part m (a + 1) 0 n bs hs (omega (arith, l))))
bytes_at-part m a (suc offset) (suc n) [] h l = absurd (omega (arith, l))
bytes_at-part m a (suc offset) (suc n) (b ∷ bs) (h, hs) l =
    ap (λ x. bytes_at m x (suc n)) (omega arith)
    ∙ bytes_at-part m (a + 1) offset (suc n) bs hs (omega (arith, l))

length-part :
    (offset n : ℕ) (contents : List ℕ)
    → offset + n ≤ length contents
    → length (part offset n contents) ≡ n
length-part zero zero contents h = refl
length-part (suc offset) zero contents h = refl
length-part zero (suc n) [] h = absurd (omega (arith, h))
length-part zero (suc n) (b ∷ bs) h = ap suc (length-part 0 n bs (omega (arith, h)))
length-part (suc offset) (suc n) [] h = absurd (omega (arith, h))
length-part (suc offset) (suc n) (b ∷ bs) h = length-part offset (suc n) bs (omega (arith, h))

-- Behind the end there is nothing more.
part_end :
    (offset size : ℕ) (contents : List ℕ)
    → offset ≤ length contents
    → length contents < offset + size
    → part offset size contents ≡ part offset (length contents - offset) contents
part_end zero zero contents h l = absurd (omega (arith, h, l))
part_end zero (suc size) [] h l = refl
part_end zero (suc size) (b ∷ bs) h l =
    ap (λ l'. b ∷ l') (part_end 0 size bs (omega arith) (omega (arith, l)))
    ∙ (let e : suc (length bs - 0) ≡ suc (length bs) - 0 = omega arith in
        ap (λ k. take k (b ∷ bs)) e)
part_end (suc offset) size [] h l = absurd (omega (arith, h))
part_end (suc offset) size (b ∷ bs) h l =
    part_end offset size bs (omega (arith, h)) (omega (arith, l))
    ∙ (let e : length bs - offset ≡ suc (length bs) - suc offset = omega arith in
        ap (λ k. take k (drop offset bs)) e)

part_behind :
    (offset size : ℕ) (contents : List ℕ)
    → length contents < offset
    → part offset size contents ≡ []
part_behind zero size contents h = absurd (omega (arith, h))
part_behind (suc offset) zero [] h = refl
part_behind (suc offset) (suc size) [] h = refl
part_behind (suc offset) size (b ∷ bs) h = part_behind offset size bs (omega (arith, h))

module _ (v : Image) where
  read_exactly :
      (lo offset n : ℕ) (contents buffer : List ℕ)
      → Contents v.bytes lo contents
      → offset + n ≤ length contents
      → n ≤ length buffer
      → ◌>>=◌ {B = ℕ × List ℕ}
          (copy_to buffer 0 n (bytes_at v.bytes (lo + offset) n))
          (λ out. some (n, out))
        ≡ some (n, part offset n contents ++ drop n buffer)
  read_exactly lo offset n contents buffer h l room =
      let len = length-part offset n contents l in
      rw (bytes_at-part v.bytes lo offset n contents h l) (
        ap (λ r. ◌>>=◌ {B = ℕ × List ℕ} r (λ out. some (n, out)))
          (subst
            (λ k.
              copy_to buffer 0 k (part offset n contents)
              ≡ some (part offset n contents ++ drop k buffer))
            len (copy_to_front buffer (part offset n contents) (omega (arith, len, room)))))

  -- `initrd_read` reads the file's bytes up to its end.
  pub read_from-part :
      (inode : InitrdInode) (offset size : ℕ) (contents buffer : List ℕ)
      → inode.size ≡ length contents
      → Contents v.bytes inode.offset contents
      → offset + size < 2 ^ 32
      → size ≤ length buffer
      → read_from v inode offset size buffer
        ≡ some (
          length (part offset size contents),
          part offset size contents ++ drop (length (part offset size contents)) buffer,
        )
  read_from-part inode offset size contents buffer e h small room =
      elim (Bool-cases (ltb inode.size offset)) [
        | inl behind_end ↦
            let far = ltb→lt inode.size offset behind_end in
            let empty = part_behind offset size contents (omega (arith, far, e)) in
            rw behind_end (rw empty refl)
        | inr inside ↦
            let near = ltb→le inode.size offset inside in
            let wrap : (offset + size) % 2 ^ 32 ≡ offset + size = omega (arith, small) in
            rw (inside, wrap)
              (elim (Bool-cases (ltb inode.size (offset + size))) [
                | inl long ↦
                    let l = ltb→lt inode.size (offset + size) long in
                    let n = inode.size - offset in
                    let same : part offset size contents ≡ part offset n contents =
                      part_end offset size contents (omega (arith, near, e)) (omega (arith, l, e))
                      ∙ ap (λ k. part offset (k - offset) contents) (sym e) in
                    let len = length-part offset n contents (omega (arith, near, e)) in
                    rw long (
                      rw same (
                        rw len (
                          read_exactly inode.offset offset n contents buffer h
                            (omega (arith, near, e)) (omega (arith, l, room)))))
                | inr short ↦
                    let l = ltb→le inode.size (offset + size) short in
                    let len = length-part offset size contents (omega (arith, l, e)) in
                    rw short (
                      rw len (
                        read_exactly inode.offset offset size contents buffer h
                          (omega (arith, l, e)) room))
              ])
      ]
