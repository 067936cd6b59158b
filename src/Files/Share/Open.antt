-- ===== src/Files/Share/Open.antt =====
-- `sys_open` of src/fs/open.c, `sys_dup` of src/fs/fcntl.c and the loop of `sys_exit` of
-- src/kernel/exit.c keep the counts.
use nupkux.Base.{
  ℕ, zero, suc, ◌+◌, ◌≡◌, refl, sym, ◌∙◌, ap, subst, inl, inr, ◌≢◌, ◌≤◌, ◌<◌, List, [], ◌∷◌, ◌++◌,
  length, length-set, get_or, set, get_or-set_self, get_or-set_ne, not_some, eq_or_ne, Option, none,
  some, ◌>>=◌, ℤ, pos, neg, arith,
}
use nupkux.Files.{
  File, Files, Answer, Lookup, vnode, fails, nr_open, emfile, file_at, entry, mode_bits, free_fd,
  open_at, open_in, sys_open, sys_close, close_down,
}
use nupkux.Files.Count.{one, one_self, refs, refs_all, total, count_of, IsCounted, refs-set}
use nupkux.Files.Close.{Closes, bad, closed, sys_close-Closes, one_other}

-- What the search for a free descriptor from the index `i` on finds.
data Finds (i : ℕ) (os : List (Option ℕ)) : Option ℕ → Type 0 where
  full : ((n : ℕ) → n < length os → get_or os n none ≢ none) → Finds i os none
  free :
      (r m : ℕ)
      → r ≡ i + m
      → m < length os
      → get_or os m none ≡ none
      → ((n : ℕ) → n < m → get_or os n none ≢ none)
      → Finds i os (some r)

Finds-skip :
    (i a : ℕ) (os : List (Option ℕ)) (o : Option ℕ) → Finds (suc i) os o → Finds i (some a ∷ os) o
Finds-skip i a os o (full used) = full (λ n.
    elim n as (λ j. j < suc (length os) → get_or (some a ∷ os) j none ≢ none) [
      | zero ↦ λ l e. not_some (sym e)
      | suc n' ↦ λ l. used n' (omega arith)
    ])
Finds-skip i a os o (free r m e l unused used) =
    free r (suc m) (omega (arith, e)) (omega (arith, l)) unused (λ n.
      elim n as (λ j. j < suc m → get_or (some a ∷ os) j none ≢ none) [
        | zero ↦ λ l' e'. not_some (sym e')
        | suc n' ↦ λ l'. used n' (omega arith)
      ])

free_fd-Finds : (i : ℕ) (os : List (Option ℕ)) → Finds i os (free_fd i os)
unfolding free_fd
free_fd-Finds i [] = full (λ n h. absurd (omega arith))
free_fd-Finds i (none ∷ os) =
    free i 0 (omega arith) (omega arith) refl (λ n l. absurd (omega arith))
free_fd-Finds i (some a ∷ os) = Finds-skip i a os (free_fd (suc i) os) (free_fd-Finds (suc i) os)

append_old :
    (heap : List (Option File)) (x : Option File) (a : ℕ)
    → a ≢ length heap
    → file_at (heap ++ (x ∷ [])) a ≡ file_at heap a
append_old [] x zero ne = absurd (ne refl)
append_old [] x (suc a) ne = refl
append_old (o ∷ heap) x zero ne = refl
append_old (o ∷ heap) x (suc a) ne = append_old heap x a (λ e. ne (ap suc e))

append_new :
    (heap : List (Option File)) (x : Option File) → file_at (heap ++ (x ∷ [])) (length heap) ≡ x
append_new [] x = refl
append_new (o ∷ heap) x = append_new heap x

behind_heap : (heap : List (Option File)) (a : ℕ) → length heap ≤ a → file_at heap a ≡ none
behind_heap [] a h = refl
behind_heap (o ∷ heap) zero h = absurd (omega arith)
behind_heap (o ∷ heap) (suc a) h = behind_heap heap a (omega arith)

-- A new FILE with one descriptor.
opened-IsCounted :
    (s s' : Files) (fd : ℕ) (f : File)
    → IsCounted s
    → fd < nr_open
    → entry s fd ≡ none
    → f.count ≡ 1
    → s'.files ≡ set s.files fd (some (length s.heap))
    → s'.heap ≡ s.heap ++ (some f ∷ [])
    → s'.others ≡ s.others
    → IsCounted s'
opened-IsCounted s s' fd f h l e c files heap others =
    let new = length s.heap in
    let nothing : total s new ≡ 0 =
      sym (h.counts new) ∙ ap count_of (behind_heap s.heap new (omega arith)) in
    let more : (b : ℕ) → total s' b ≡ total s b + one b (some new) = λ b.
      let step = refs-set nr_open b fd (some new) s.files l (omega (arith, l, h.size)) in
      let old : one b (entry s fd) ≡ 0 = ap (one b) e in
      ap (λ os. refs nr_open b os + refs_all b s'.others) files
      ∙ ap (λ oss. refs nr_open b (set s.files fd (some new)) + refs_all b oss) others
      ∙ omega (arith, step, old) in
    record {
      size = ap length files ∙ length-set s.files fd (some new) ∙ h.size;
      counts = λ b. elim (eq_or_ne b new) [
        | inl e' ↦
            subst (λ d. count_of (file_at s'.heap d) ≡ total s' d) (sym e')
              (ap (λ hp. count_of (file_at hp new)) heap
                ∙ ap count_of (append_new s.heap (some f))
                ∙ omega (arith, c, nothing, more new, one_self new))
        | inr ne ↦
            ap (λ hp. count_of (file_at hp b)) heap
            ∙ ap count_of (append_old s.heap (some f) b ne)
            ∙ h.counts b
            ∙ omega (arith, more b, one_other new b ne)
      ];
      alive = λ b g e'. elim (eq_or_ne b new) [
        | inl e'' ↦
            let is_new : some f ≡ some g =
              sym (ap (λ hp. file_at hp new) heap ∙ append_new s.heap (some f))
              ∙ subst (λ d. file_at s'.heap d ≡ some g) e'' e' in
            subst (λ m. 0 < m) (sym c ∙ ap count_of is_new) (omega arith)
        | inr ne ↦
            h.alive b g (sym (ap (λ hp. file_at hp b) heap ∙ append_old s.heap (some f) b ne) ∙ e')
      ];
      tasks = subst (λ oss. length oss < 64) (sym others) h.tasks;
    }

-- What `sys_open` leads to.
pub data Opens (s : Files) (flag : ℕ) (found : Lookup) : Answer → Type 0 where
  all_used :
      ((n : ℕ) → n < nr_open → entry s n ≢ none)
      → Opens s flag found (record { result = neg emfile; state = s })
  no_vnode :
      (status : ℤ)
      → found ≡ fails status
      → Opens s flag found (record { result = status; state = s })
  opens :
      (fd n size : ℕ) (s' : Files)
      → found ≡ vnode n size
      → entry s fd ≡ none
      → ((i : ℕ) → i < fd → entry s i ≢ none)
      → IsCounted s'
      → ((i : ℕ) → i ≢ fd → entry s' i ≡ entry s i)
      → (entry s' fd ≡ some (length s.heap))
      → (f : File) → file_at s'.heap (length s.heap) ≡ some f
      → f.node ≡ n
      → f.flags ≡ mode_bits flag
      → Opens s flag found (record { result = pos fd; state = s' })

open_at-Opens :
    (s : Files) (flag fd : ℕ) (found : Lookup)
    → IsCounted s
    → fd < nr_open
    → entry s fd ≡ none
    → ((i : ℕ) → i < fd → entry s i ≢ none)
    → Opens s flag found (open_at s fd flag found)
unfolding open_at
open_at-Opens s flag fd (fails status) h l e used = no_vnode status refl
open_at-Opens s flag fd (vnode n size) h l e used =
    opens fd n size _ refl e used (opened-IsCounted s _ fd _ h l e refl refl refl refl)
      (λ i ne. get_or-set_ne s.files fd i (some (length s.heap)) none (λ e'. ne (sym e')))
      (get_or-set_self s.files fd (some (length s.heap)) none (omega (arith, l, h.size))) _
      (append_new s.heap _) refl refl

open_in-Opens :
    (s : Files) (flag : ℕ) (found : Lookup) (o : Option ℕ)
    → IsCounted s
    → Finds 0 s.files o
    → Opens s flag found (open_in s flag found o)
open_in-Opens s flag found none h (full used) = all_used (λ n l. used n (omega (arith, l, h.size)))
open_in-Opens s flag found (some fd) h (free _ m e l unused used) =
    open_at-Opens s flag fd found h (omega (arith, e, l, h.size))
      (subst (λ i. entry s i ≡ none) (omega (arith, e)) unused)
      (λ i l'. used i (omega (arith, e, l')))

-- `sys_open` gives EMFILE where every descriptor is used, and the status of `namei` where that finds
-- nothing, and changes nothing then. Otherwise it returns the first free descriptor, which refers to a
-- new FILE of the vnode with the mode of the flags; the other descriptors stay, and the counts are right.
pub sys_open-Opens :
    (s : Files) (flag : ℕ) (found : Lookup)
    → IsCounted s
    → Opens s flag found (sys_open s flag found)
unfolding sys_open
sys_open-Opens s flag found h =
    open_in-Opens s flag found (free_fd 0 s.files) h (free_fd-Finds 0 s.files)

close_one :
    (s : Files) (i : ℕ) (o : Option Answer)
    → IsCounted s
    → Closes s i o
    → (r : Answer) × (o ≡ some r)
      × IsCounted r.state
      × (entry r.state i ≡ none)
      × ((n : ℕ) → n ≢ i → entry r.state n ≡ entry s n)
      × (r.state.others ≡ s.others)
close_one s i _ h (bad gone) = (_, refl, h, gone, λ n ne. refl, refl)
close_one s i _ h (closed s' used h' gone same others) = (_, refl, h', gone, same, others)

-- The loop from `i` down frees those below `i`, and the others stay.
close_down-IsCounted :
    (i : ℕ) (s : Files)
    → IsCounted s
    → (s' : Files) × (close_down i s ≡ some s')
      × IsCounted s'
      × ((n : ℕ) → n < i → entry s' n ≡ none)
      × ((n : ℕ) → i ≤ n → entry s' n ≡ entry s n)
      × (s'.others ≡ s.others)
unfolding close_down
close_down-IsCounted zero s h = (s, refl, h, λ n l. absurd (omega arith), λ n l. refl, refl)
close_down-IsCounted (suc i) s h =
    let (r, e, h1, gone, same, others) =
      close_one s i (sys_close s (pos i)) h (sys_close-Closes s i h) in
    let (s', e', h', below, above, others') = close_down-IsCounted i r.state h1 in
    (
      s',
      ap (λ o. o >>= λ q. close_down i q.state) e ∙ e',
      h',
      λ n l. elim (eq_or_ne n i) [
        | inl e'' ↦ subst (λ m. entry s' m ≡ none) (sym e'') (above i (omega arith) ∙ gone)
        | inr ne ↦ below n (omega (arith, l, ne))
      ],
      λ n l. above n (omega (arith, l)) ∙ same n (λ e''. omega (arith, e'', l)),
      others' ∙ others,
    )

-- The loop of `sys_exit` closes every descriptor of the task without a fault, keeps the tables of the
-- other tasks, and the counts stay right.
pub close_down_all :
    (s : Files)
    → IsCounted s
    → (s' : Files) × (close_down nr_open s ≡ some s')
      × IsCounted s'
      × ((n : ℕ) → n < nr_open → entry s' n ≡ none)
      × (s'.others ≡ s.others)
close_down_all s h =
    let (s', e, h', below, above, others) = close_down-IsCounted nr_open s h in
    (s', e, h', below, others)

pub Opens-IsCounted :
    (s : Files) (flag : ℕ) (found : Lookup) (r : Answer)
    → IsCounted s
    → Opens s flag found r
    → IsCounted r.state
Opens-IsCounted s flag found _ h (all_used used) = h
Opens-IsCounted s flag found _ h (no_vnode status e) = h
Opens-IsCounted s flag found _ h (opens fd n size s' e e' used h' same new f ef en em) = h'
