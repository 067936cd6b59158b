-- ===== src/Programs/Stack/Vector.antt =====
-- The vectors of arguments that `write_vector` leaves.
use nupkux.Base.{
  ℕ, ◌+◌, ◌-◌, ◌*◌, ◌^◌, ◌<◌, ◌≤◌, ◌≡◌, refl, sym, ◌∙◌, ap, ap₂, subst, inr, List, [], ◌∷◌, length,
  some, arith,
}
use nupkux.Heap.{Bytes, read32, write32, sub32}
use nupkux.Programs.Stack.{
  put_string, write_strings, Pointers, next_pointer, write_pointers, write_vector,
}
use nupkux.Programs.Stack.Words.{
  write32-outside, read32-write32, Strings-SameFrom, Addresses-SameFrom, put_string-SameFrom,
  put_string-IsAt, Strings, Addresses, total, SameFrom,
}

write_strings-Strings :
    (vec : List (List ℕ)) (buf : ℕ) (m : Bytes)
    → total vec ≤ buf
    → buf < 2 ^ 32
    → ((write_strings vec buf m).0 ≡ buf - total vec)
      × Strings (write_strings vec buf m).1 (buf - total vec) vec
      × SameFrom buf m (write_strings vec buf m).1
write_strings-Strings [] buf m l h = (omega arith, tt, λ x l'. refl)
write_strings-Strings (s ∷ vec) buf m l h =
    let (e, strings, same) = write_strings-Strings vec buf m (omega (arith, l)) h in
    let rest = (write_strings vec buf m).1 in
    let place : sub32 (write_strings vec buf m).0 (length s + 1) ≡ buf - total (s ∷ vec) =
      omega (arith, e, l, h) in
    let above : buf - total (s ∷ vec) + length s + 1 ≡ buf - total vec = omega (arith, l) in
    let base : ℕ = buf - total (s ∷ vec) in
    let copied = put_string-SameFrom s base rest in
    let mem : (write_strings (s ∷ vec) buf m).1 ≡ put_string base s rest =
      ap (λ p. put_string p s rest) place in
    let upper : Strings (put_string base s rest) (base + length s + 1) vec =
      Strings-SameFrom rest (put_string base s rest) (base + length s + 1) (base + length s + 1) vec
        copied (omega arith) (subst (λ n. Strings rest n vec) (sym above) strings) in
    (
      place,
      subst (λ mm. Strings mm base (s ∷ vec)) (sym mem) (put_string-IsAt s base rest, upper),
      subst (λ mm. SameFrom buf m mm) (sym mem)
          (λ x l'. copied x (omega (arith, l, l')) ∙ same x l'),
    )

-- What the second loop has written below the strings.
pub record IsPointers (vec : List (List ℕ)) (old end : ℕ) (m : Bytes) (p : Pointers) : Type 0 where
  pub oldbuf : p.oldbuf ≡ old - total vec
  pub buf : p.buf ≡ end - 4 * length vec
  pub words : Addresses p.bytes (end - 4 * length vec) (old - total vec) vec
  pub rest : SameFrom (end + 4) m p.bytes

minus_nothing : (n : ℕ) → n ≡ n - 0
minus_nothing n = omega arith

write_pointers-IsPointers :
    (vec : List (List ℕ)) (old end : ℕ) (m : Bytes)
    → total vec ≤ old
    → old < 2 ^ 32
    → 4 * length vec ≤ end
    → end < 2 ^ 32
    → read32 m end ≡ 0
    → IsPointers vec old end m (write_pointers vec (record { oldbuf = old; buf = end; bytes = m }))
write_pointers-IsPointers [] old end m l h l' h' zero_word = record {
  oldbuf = omega arith;
  buf = omega arith;
  words = subst (λ n. read32 m n ≡ 0) (minus_nothing end) zero_word;
  rest = λ x k. refl;
}
write_pointers-IsPointers (s ∷ vec) old end m l h l' h' zero_word =
    let p = write_pointers vec (record { oldbuf = old; buf = end; bytes = m }) in
    let ok =
      write_pointers-IsPointers vec old end m (omega (arith, l)) h (omega (arith, l')) h'
        zero_word in
    let addr : ℕ = old - total (s ∷ vec) in
    let place : ℕ = end - 4 * length (s ∷ vec) in
    let lower : sub32 p.oldbuf (length s + 1) ≡ addr = omega (arith, ok.oldbuf, l, h) in
    let below : sub32 p.buf 4 ≡ place = omega (arith, ok.buf, l', h') in
    let next_place : place + 4 ≡ end - 4 * length vec = omega (arith, l') in
    let next_addr : addr + length s + 1 ≡ old - total vec = omega (arith, l) in
    let same : SameFrom (place + 4) p.bytes (write32 p.bytes place addr) =
      (λ x k. write32-outside p.bytes place addr x (inr k)) in
    let mem : (next_pointer (length s + 1) p).bytes ≡ write32 p.bytes place addr =
      ap₂ (λ b o. write32 p.bytes b o) below lower in
    let later : Addresses p.bytes (place + 4) (addr + length s + 1) vec =
      subst (λ n. Addresses p.bytes n (addr + length s + 1) vec) (sym next_place)
        (subst (λ n. Addresses p.bytes (end - 4 * length vec) n vec) (sym next_addr) ok.words) in
    record {
      oldbuf = lower;
      buf = below;
      words =
          subst (λ mm. Addresses mm place addr (s ∷ vec)) (sym mem)
            (
              read32-write32 p.bytes place addr (omega (arith, h)),
              Addresses-SameFrom p.bytes (write32 p.bytes place addr) (place + 4) (place + 4)
                  (addr + length s + 1) vec same (omega arith) later,
            );
      rest =
          subst (λ mm. SameFrom (end + 4) m mm) (sym mem)
            (λ x k. same x (omega (arith, k)) ∙ ok.rest x k);
    }

-- The vector below strings that were written.
vector_lem :
    (vec : List (List ℕ)) (buf end : ℕ) (m m' : Bytes)
    → total vec + 4 * length vec + 4 ≤ buf
    → buf < 2 ^ 32
    → end ≡ buf - total vec - 4
    → Strings m' (buf - total vec) vec
    → SameFrom buf m m'
    → (p : Pointers)
    → p ≡ write_pointers vec (record { oldbuf = buf; buf = end; bytes = write32 m' end 0 })
    → (p.buf ≡ buf - total vec - 4 - 4 * length vec)
      × Addresses p.bytes (buf - total vec - 4 - 4 * length vec) (buf - total vec) vec
      × Strings p.bytes (buf - total vec) vec
      × SameFrom buf m p.bytes
vector_lem vec buf end m m' l h e strings same p eq =
    let ok =
      subst (λ q. IsPointers vec buf end (write32 m' end 0) q) (sym eq)
        (write_pointers-IsPointers vec buf end (write32 m' end 0) (omega (arith, l)) h
          (omega (arith, e, l)) (omega (arith, e, h)) (read32-write32 m' end 0 (omega arith))) in
    let place : end - 4 * length vec ≡ buf - total vec - 4 - 4 * length vec = omega (arith, e) in
    let kept : SameFrom (buf - total vec) m' p.bytes = (λ x k.
      ok.rest x (omega (arith, e, l, k))
      ∙ write32-outside m' end 0 x (inr (omega (arith, e, l, k)))) in
    (
      ok.buf ∙ place,
      subst (λ n. Addresses p.bytes n (buf - total vec) vec) place ok.words,
      Strings-SameFrom m' p.bytes (buf - total vec) (buf - total vec) vec kept (omega arith)
          strings,
      λ x k. kept x (omega (arith, k)) ∙ same x k,
    )

-- Where the strings and the vector fit below `buf`, `write_vector` gives the address of a vector that
-- ends with a null pointer and whose entries are the addresses of the strings, which stand in their
-- order up to `buf`; from there on the memory stays.
pub write_vector-Addresses :
    (vec : List (List ℕ)) (buf : ℕ) (m : Bytes)
    → total vec + 4 * length vec + 4 ≤ buf
    → buf < 2 ^ 32
    → ((write_vector (some vec) buf m).0 ≡ buf - total vec - 4 - 4 * length vec)
      × Addresses
          (write_vector (some vec) buf m).1
          (buf - total vec - 4 - 4 * length vec)
          (buf - total vec)
          vec
      × Strings (write_vector (some vec) buf m).1 (buf - total vec) vec
      × SameFrom buf m (write_vector (some vec) buf m).1
unfolding write_vector
write_vector-Addresses vec buf m l h =
    let (e, strings, same) = write_strings-Strings vec buf m (omega (arith, l)) h in
    vector_lem vec buf (sub32 (write_strings vec buf m).0 4) m (write_strings vec buf m).1 l h
      (omega (arith, e, l, h)) strings same
      (write_pointers vec (record {
        oldbuf = buf;
        buf = sub32 (write_strings vec buf m).0 4;
        bytes = write32 (write_strings vec buf m).1 (sub32 (write_strings vec buf m).0 4) 0;
      }))
      refl
