-- ===== src/Page/Steps.antt =====
-- kernel/mm/page.c: a block that leaves a free list or enters one, with the bit of its pair flipped.
use abmp.Common.{
  ℕ, ◌+◌, ◌^◌, ◌≤◌, ◌<◌, ◌≡◌, refl, ap, subst, inl, inr, ◌⊎◌, true, List, ◌∷◌, ◌==◌, Bool-cases,
  arith, ◌∙◌,
}
use mathlib.Core.Path.{fun_ext}
use abmp.Page.Buddy.{Group, contains, erase, set_free, insert}
use abmp.Page.Sums.{total, block, pair, cover, total-erase, contains-erase, covers-set_free}
use abmp.Page.Valid.{
  Placed, odd, AllPlaced, Valid, flipped, flipped-same, cover-flipped, set_free-AllPlaced,
  set_free-Paired, flipped-Paired,
}

-- The group keeps its pages; the free ones gain those that `f` counts and lose those of `h`.
abbrev pub Moves : (ℕ → ℕ) → (ℕ → ℕ) → Group → Group → Type 0
Moves f h g g' =
    (g'.base ≡ g.base) × ((g'.npages ≡ g.npages) × ((p : ℕ) → cover g' p + h p ≡ cover g p + f p))

abbrev pub no_pages : ℕ → ℕ
no_pages p = 0

pub cover-set_free :
    (o : ℕ) (xs : List ℕ) (g : Group) (p : ℕ)
    → o < 8
    → cover (set_free o xs g) p + total (block (2 ^ o) p) (g.free o)
      ≡ cover g p + total (block (2 ^ o) p) xs
unfolding cover
cover-set_free o xs g p l = covers-set_free 8 o xs g p l

pub set_free-Moves :
    (o : ℕ) (xs : List ℕ) (g : Group) (f h : ℕ → ℕ)
    → o < 8
    → ((p : ℕ) → total (block (2 ^ o) p) xs + h p ≡ total (block (2 ^ o) p) (g.free o) + f p)
    → Moves f h g (set_free o xs g)
unfolding set_free
set_free-Moves o xs g f h l k = (refl, (refl, (λ p. omega (arith, cover-set_free o xs g p l, k p))))

flipped-AllPlaced : (o i : ℕ) (g : Group) → AllPlaced g → AllPlaced (flipped o i g)
flipped-AllPlaced o i g h q j l c =
    let (f, (n, b)) = flipped-same o i g in
    rw n (h q j l (subst (λ w. contains j (w q) ≡ true) f c))

-- The list of an order replaced, and the bit of one of its blocks flipped.
pub flipped-Valid :
    (o i : ℕ) (xs : List ℕ) (g : Group) (f h : ℕ → ℕ)
    → o < 8
    → Valid g
    → ((j : ℕ) → contains j xs ≡ true → Placed g.npages o j)
    → ((p : ℕ) → total (block (2 ^ o) p) xs + h p ≡ total (block (2 ^ o) p) (g.free o) + f p)
    → ((p : ℕ) → cover g p + f p ≤ 1 + h p)
    → ((q : ℕ) → odd (total (pair o q) (g.free o) + pair o q i) ≡ odd (total (pair o q) xs))
    → Valid (flipped o i (set_free o xs g)) × Moves f h g (flipped o i (set_free o xs g))
flipped-Valid o i xs g f h l v c d e k =
    let s = set_free o xs g in
    let m = set_free-Moves o xs g f h l d in
    let (_, (n, b)) = flipped-same o i s in
    (
      (
        flipped-AllPlaced o i s (set_free-AllPlaced o xs g v.0 c),
        (
          (λ p. omega (arith, cover-flipped o i s p, m.1.1 p, e p)),
          flipped-Paired o i xs g v.1.1 (λ q _. k q),
        ),
      ),
      (b ∙ m.0, (n ∙ m.1.0, (λ p. omega (arith, cover-flipped o i s p, m.1.1 p)))),
    )

pub odd_twice : (m n b : ℕ) → m + b ≡ n → odd (n + b) ≡ odd m
unfolding odd
odd_twice m n b h = ground arith

pub erase-Valid :
    (o i : ℕ) (g : Group)
    → o < 8
    → Valid g
    → contains i (g.free o) ≡ true
    → Valid (flipped o i (set_free o (erase i (g.free o)) g))
      × Moves no_pages (λ p. block (2 ^ o) p i) g (flipped o i (set_free o (erase i (g.free o)) g))
erase-Valid o i g l v c =
    let xs = g.free o in
    flipped-Valid o i (erase i xs) g no_pages (λ p. block (2 ^ o) p i) l v
      (λ j k. v.0 o j l (contains-erase i j xs k))
      (λ p. omega (arith, total-erase (block (2 ^ o) p) i xs c)) (λ p. omega (arith, v.1.0 p))
      (λ q.
        odd_twice (total (pair o q) (erase i xs)) (total (pair o q) xs) (pair o q i)
          (total-erase (pair o q) i xs c))

contains-cons :
    (i j : ℕ) (xs : List ℕ) → contains j (i ∷ xs) ≡ true → (i ≡ j) ⊎ (contains j xs ≡ true)
contains-cons i j xs h = elim (Bool-cases (i == j)) [
  | inl e ↦ inl (ground arith)
  | inr e ↦ inr (ground arith)
]

pub cons-Placed :
    (o i n : ℕ) (xs : List ℕ)
    → Placed n o i
    → ((j : ℕ) → contains j xs ≡ true → Placed n o j)
    → (j : ℕ) → contains j (i ∷ xs) ≡ true
    → Placed n o j
cons-Placed o i n xs h k j c = elim (contains-cons i j xs c) [
  | inl e ↦ subst (Placed n o) e h
  | inr e ↦ k j e
]

pub insert-Valid :
    (o i : ℕ) (g : Group)
    → o < 8
    → Valid g
    → Placed g.npages o i
    → ((p : ℕ) → cover g p + block (2 ^ o) p i ≤ 1)
    → Valid (flipped o i (insert o i g))
      × Moves (λ p. block (2 ^ o) p i) no_pages g (flipped o i (insert o i g))
unfolding insert
insert-Valid o i g l v c d =
    let xs = g.free o in
    flipped-Valid o i (i ∷ xs) g (λ p. block (2 ^ o) p i) no_pages l v
      (cons-Placed o i g.npages xs c (λ j k. v.0 o j l k)) (λ p. omega arith)
      (λ p. omega (arith, d p)) (λ q. ap odd (omega arith))

-- The list of an order replaced, the parity of its pairs unchanged.
pub set_free-Valid :
    (o : ℕ) (xs : List ℕ) (g : Group) (f h : ℕ → ℕ)
    → o < 8
    → Valid g
    → ((j : ℕ) → contains j xs ≡ true → Placed g.npages o j)
    → ((p : ℕ) → total (block (2 ^ o) p) xs + h p ≡ total (block (2 ^ o) p) (g.free o) + f p)
    → ((p : ℕ) → cover g p + f p ≤ 1 + h p)
    → ((q : ℕ) → odd (total (pair o q) (g.free o)) ≡ odd (total (pair o q) xs))
    → Valid (set_free o xs g) × Moves f h g (set_free o xs g)
set_free-Valid o xs g f h l v c d e k =
    let m = set_free-Moves o xs g f h l d in
    (
      (
        set_free-AllPlaced o xs g v.0 c,
        (
          (λ p. omega (arith, m.1.1 p, e p)),
          set_free-Paired o xs g v.1.1 (λ q r. v.1.1 o q r ∙ k q),
        ),
      ),
      m,
    )

pub set_free-set_free :
    (o : ℕ) (xs ys : List ℕ) (g : Group) → set_free o ys (set_free o xs g) ≡ set_free o ys g
unfolding set_free
set_free-set_free o xs ys g = ap (λ f. record g { free = f }) (fun_ext (λ k. ground arith))
