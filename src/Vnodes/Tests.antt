-- ===== src/Vnodes/Tests.antt =====
-- Concrete caches of vnodes, and the theorems applied to them.
use nupkux.Base.{◌≡◌, refl, List, [], ◌∷◌, arith}
use nupkux.Vnodes.{Vnode, bump, iget, iput}
use nupkux.Vnodes.Refs.{Represents, count_in, more, less, iget-Represents, iput-Represents}

-- Inode 2 with three references and inode 11 with one.
abbrev cache : List Vnode
cache = record { ino = 2; count = 3 } ∷ record { ino = 11; count = 1 } ∷ []

cache-Represents : Represents cache (count_in cache)
cache-Represents = record {
  valid = (omega arith, refl, (omega arith, refl, tt));
  counts = λ i. refl;
}

new_inode : iget cache 5 ≡ (record { ino = 5; count = 1 } ∷ cache)
unfolding iget bump
new_inode = refl

last_reference : iput cache 11 ≡ (record { ino = 2; count = 3 } ∷ [])
unfolding iput
last_reference = refl

iget-Represents_example : Represents (iget cache 2) (more (count_in cache) 2)
iget-Represents_example = iget-Represents cache (count_in cache) 2 cache-Represents (omega arith)

iput-Represents_example : Represents (iput cache 11) (less (count_in cache) 11)
iput-Represents_example = iput-Represents cache (count_in cache) 11 cache-Represents
