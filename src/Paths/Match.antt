-- ===== src/Paths/Match.antt =====
-- `namei_match` and `namei_nmatch` of src/fs/namei.c against the equality of components.
use nupkux.Base.{
  not_both, ap₂, drop, get_or, ==_refl, ℕ, suc, ◌-◌, ◌≡◌, refl, sym, ap, inl, inr, ◌≢◌, ◌==◌, ◌↔◌,
  List, [], ◌∷◌, ◌++◌, length, true, false, Bool-cases, arith, if◌then◌else◌,
}
use nupkux.Paths.{is_end_chr, at_end, namei_match, namei_nmatch}

-- The first component of a path: the bytes in front of a '/' or the end.
abbrev pub component : List ℕ → List ℕ
component [] = []
component (c ∷ s) = if is_end_chr c then [] else c ∷ component s

not_cons : {c : ℕ} {s : List ℕ} → [] ≢ (c ∷ s)
not_cons h = let no = ap length h in omega (arith, no)

cons_head : (c c' : ℕ) (s s' : List ℕ) → (c ∷ s) ≡ (c' ∷ s') → c ≡ c'
cons_head c c' s s' h = ap (λ l. get_or l 0 0) h

cons_tail : (c c' : ℕ) (s s' : List ℕ) → (c ∷ s) ≡ (c' ∷ s') → s ≡ s'
cons_tail c c' s s' h = ap (drop 1) h

-- `namei_match` of two strings says exactly whether their first components are equal.
pub namei_match_lem : (s1 s2 : List ℕ) → (namei_match s1 s2 ≡ true) ↔ (component s1 ≡ component s2)
unfolding namei_match
namei_match_lem [] [] = (λ h. refl, λ h. refl)
namei_match_lem [] (c2 ∷ s2) = elim (Bool-cases (is_end_chr c2)) [
  | inl e ↦ rw e (λ h. refl, λ h. refl)
  | inr e ↦ rw e (λ h. absurd (not_both false h refl), λ h. absurd (not_cons h))
]
namei_match_lem (c1 ∷ s1) [] = elim (Bool-cases (is_end_chr c1)) [
  | inl e ↦ rw e (λ h. refl, λ h. refl)
  | inr e ↦ rw e (λ h. absurd (not_both false h refl), λ h. absurd (not_cons (sym h)))
]
namei_match_lem (c1 ∷ s1) (c2 ∷ s2) = elim (Bool-cases (is_end_chr c1)) [
  | inl e1 ↦ elim (Bool-cases (is_end_chr c2)) [
    | inl e2 ↦ rw (e1, e2) (λ h. refl, λ h. refl)
    | inr e2 ↦ rw (e1, e2) (λ h. absurd (not_both false h refl), λ h. absurd (not_cons h))
  ]
  | inr e1 ↦ elim (Bool-cases (is_end_chr c2)) [
    | inl e2 ↦ rw (e1, e2) (λ h. absurd (not_both false h refl), λ h. absurd (not_cons (sym h)))
    | inr e2 ↦
        rw (e1, e2)
          (elim (Bool-cases (c1 == c2)) [
            | inl s ↦
                let (there, back) = namei_match_lem s1 s2 in
                let same : c1 ≡ c2 = ground (arith, s) in
                rw s (λ h. ap₂ (λ c l. c ∷ l) same (there h), λ h. back (cons_tail c1 c2 _ _ h))
            | inr s ↦ rw s (
              λ h. absurd (not_both false h refl),
              λ h. absurd (ground (arith, s, cons_head c1 c2 (component s1) (component s2) h)),
            )
          ])
  ]
]

-- No byte of the name ends a component.
abbrev pub IsName : List ℕ → Type 0
IsName [] = Unit
IsName (c ∷ s) = (is_end_chr c ≡ false) × IsName s

-- Where the byte behind a name of the given length ends a component, `namei_nmatch` says exactly whether
-- the first component of the string is that name.
pub namei_nmatch_lem :
    (s1 name more : List ℕ)
    → IsName name
    → at_end more ≡ true
    → (namei_nmatch s1 (name ++ more) (length name) ≡ true) ↔ (component s1 ≡ name)
unfolding namei_nmatch
namei_nmatch_lem [] [] more h e = (λ h'. refl, λ h'. refl)
namei_nmatch_lem [] (c2 ∷ name) more (h2, h) e =
    let long : (suc (length name) == 0) ≡ false = ground arith in
    rw (h2, long) (λ h'. absurd (not_both false h' refl), λ h'. absurd (not_cons h'))
namei_nmatch_lem (c1 ∷ s1) [] [] h e = elim (Bool-cases (is_end_chr c1)) [
  | inl e1 ↦ rw e1 (λ h'. refl, λ h'. refl)
  | inr e1 ↦ rw e1 (λ h'. absurd (not_both false h' refl), λ h'. absurd (not_cons (sym h')))
]
namei_nmatch_lem (c1 ∷ s1) [] (c2 ∷ more) h e = elim (Bool-cases (is_end_chr c1)) [
  | inl e1 ↦ rw e1 (λ h'. refl, λ h'. refl)
  | inr e1 ↦ rw (e1, e) (λ h'. absurd (not_both false h' refl), λ h'. absurd (not_cons (sym h')))
]
namei_nmatch_lem (c1 ∷ s1) (c2 ∷ name) more (h2, h) e =
    let long : (suc (length name) == 0) ≡ false = ground arith in
    let pred : suc (length name) - 1 ≡ length name = omega arith in
    elim (Bool-cases (is_end_chr c1)) [
      | inl e1 ↦
          rw (e1, h2, long) (λ h'. absurd (not_both false h' refl), λ h'. absurd (not_cons h'))
      | inr e1 ↦
          rw (e1, h2, long, pred)
            (elim (Bool-cases (c1 == c2)) [
              | inl s ↦
                  let (there, back) = namei_nmatch_lem s1 name more h e in
                  let same : c1 ≡ c2 = ground (arith, s) in
                  rw s
                    (λ h'. ap₂ (λ c l. c ∷ l) same (there h'), λ h'. back (cons_tail c1 c2 _ _ h'))
              | inr s ↦ rw s (
                λ h'. absurd (not_both false h' refl),
                λ h'. absurd (ground (arith, s, cons_head c1 c2 (component s1) name h')),
              )
            ])
    ]

-- Where it does not, a string that goes on behind the name with another byte matches as well.
pub namei_nmatch_overrun :
    (name s1 more : List ℕ) (x y : ℕ)
    → IsName name
    → is_end_chr x ≡ false
    → is_end_chr y ≡ false
    → namei_nmatch (name ++ (x ∷ s1)) (name ++ (y ∷ more)) (length name) ≡ true
unfolding namei_nmatch
namei_nmatch_overrun [] s1 more x y h hx hy = rw (hx, hy) refl
namei_nmatch_overrun (c ∷ name) s1 more x y (hc, h) hx hy =
    let self : (c == c) ≡ true = ==_refl c in
    let long : (suc (length name) == 0) ≡ false = ground arith in
    let rest : suc (length name) - 1 ≡ length name = omega arith in
    rw (hc, long, self, rest) (namei_nmatch_overrun name s1 more x y h hx hy)
