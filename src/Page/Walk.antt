-- ===== src/Page/Walk.antt =====
-- kernel/mm/page.c: the walks over the list of groups.
use abmp.Common.{
  ℕ, ◌+◌, ◌-◌, ◌≡◌, refl, ap, inl, inr, Bool, true, false, leb, List, [], ◌∷◌, ◌++◌, if◌then◌else◌,
  Bool-cases, arith, Option, some, none, All,
}
use abmp.Page.{update_first}
use abmp.Page.Buddy.{Group}
use abmp.Page.Sums.{cover}
use abmp.Page.Valid.{Some}

-- Where a walk ends: at no group, or at the first that passes the test.
abbrev pub Reached :
    (Group → Bool) → (Group → ℕ → Group → Type 0) → List Group → Option ℕ × List Group → Type 0
Reached p Q gs (none, gs') = (gs' ≡ gs) × All (λ g. p g ≡ false) gs
Reached p Q gs (some a, gs') =
    (xs : List Group) × ((g : Group) × ((g' : Group) × ((ys : List Group) × ((gs ≡ xs ++ (g ∷ ys))
            × ((gs' ≡ xs ++ (g' ∷ ys)) × ((p g ≡ true) × Q g a g'))))))

Reached-cons :
    (p : Group → Bool) (Q : Group → ℕ → Group → Type 0) (g : Group) (gs : List Group)
    (r : Option ℕ × List Group)
    → p g ≡ false
    → Reached p Q gs r
    → Reached p Q (g ∷ gs) (r.0, g ∷ r.1)
Reached-cons p Q g gs (none, gs') e (h, k) = (ap (λ l. g ∷ l) h, (e, k))
Reached-cons p Q g gs (some a, gs') e (xs, (x, (x', (ys, (h, (k, q)))))) =
    (g ∷ xs, (x, (x', (ys, (ap (λ l. g ∷ l) h, (ap (λ l. g ∷ l) k, q))))))

-- The step is only run on a group of the list that passes the test.
pub update_first-Reached :
    (p : Group → Bool) (f : Group → Option (ℕ × Group)) (Q : Group → ℕ → Group → Type 0)
    (gs : List Group)
    → All (λ g. p g ≡ true → Some (λ r. Q g r.0 r.1) (f g)) gs
    → Some (Reached p Q gs) (update_first p f gs)
update_first-Reached p f Q [] h = ((none, []), (refl, (refl, tt)))
update_first-Reached p f Q (g ∷ gs) h = elim (Bool-cases (p g)) [
  | inl e ↦
      let ((a, g'), (k, q)) = h.0 e in
      ((some a, g' ∷ gs), (rw (e, k) refl, ([], (g, (g', (gs, (refl, (refl, (e, q)))))))))
  | inr e ↦
      let (r, (k, q)) = update_first-Reached p f Q gs h.1 in
      ((r.0, g ∷ r.1), (rw (e, k) refl, Reached-cons p Q g gs r e q))
]

-- How many free blocks of all groups hold a page.
abbrev pub free_at : List Group → ℕ → ℕ
free_at [] a = 0
free_at (g ∷ gs) a = (if leb g.base a then cover g (a - g.base) else 0) + free_at gs a

pub free_at-append :
    (xs ys : List Group) (a : ℕ) → free_at (xs ++ ys) a ≡ free_at xs a + free_at ys a
free_at-append [] ys a = omega arith
free_at-append (x ∷ xs) ys a = omega (arith, free_at-append xs ys a)

-- A group replaced by one that has a block less, or more.
pub free_at-replaced :
    (xs ys : List Group) (g g' : Group) (f h : ℕ → ℕ) (a : ℕ)
    → g'.base ≡ g.base
    → ((p : ℕ) → cover g' p + h p ≡ cover g p + f p)
    → free_at (xs ++ (g' ∷ ys)) a + (if leb g.base a then h (a - g.base) else 0)
      ≡ free_at (xs ++ (g ∷ ys)) a + (if leb g.base a then f (a - g.base) else 0)
free_at-replaced xs ys g g' f h a e k =
    let s = free_at-append xs (g' ∷ ys) a in
    let t = free_at-append xs (g ∷ ys) a in
    let m = ap (λ b. if leb b a then cover g' (a - b) else 0) e in
    ground (arith, s, t, m, k (a - g.base))
