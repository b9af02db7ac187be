-- ===== src/Page/Sums.antt =====
-- kernel/mm/page.c: the free lists as sums over their blocks, for the pages that they hold and for
-- the pairs of buddies.
use abmp.Common.{
  ℕ, zero, suc, ◌+◌, ◌/◌, ◌^◌, ◌≤◌, ◌<◌, ◌≡◌, refl, inl, inr, true, false, ltb, leb, List, [], ◌∷◌,
  ◌==◌, if◌then◌else◌, Bool-cases, arith,
}
use abmp.Page.Buddy.{Group, contains, erase, set_free}

abbrev pub total : (ℕ → ℕ) → List ℕ → ℕ
total f [] = 0
total f (i ∷ xs) = f i + total f xs

-- 1 where the `size` pages from `i` hold the page `p`, else 0.
unfoldable pub block : ℕ → ℕ → ℕ → ℕ
block size p i = if leb i p then (if ltb p (i + size) then 1 else 0) else 0

-- 1 where the block `i` of the order `o` is in the pair `q`, else 0.
unfoldable pub pair : ℕ → ℕ → ℕ → ℕ
pair o q i = if (i / 2 ^ suc o) == q then 1 else 0

-- How many blocks below the order `n` hold the page `p`.
abbrev pub covers : ℕ → Group → ℕ → ℕ
covers zero g p = 0
covers (suc n) g p = total (block (2 ^ n) p) (g.free n) + covers n g p

unfoldable pub cover : Group → ℕ → ℕ
cover g p = covers 8 g p

pub total-erase :
    (f : ℕ → ℕ) (i : ℕ) (xs : List ℕ)
    → contains i xs ≡ true
    → total f (erase i xs) + f i ≡ total f xs
total-erase f i [] h = cc
total-erase f i (j ∷ xs) h = ground (arith, total-erase f i xs)

pub contains-erase : (i j : ℕ) (xs : List ℕ) → contains j (erase i xs) ≡ true → contains j xs ≡ true
contains-erase i j [] h = h
contains-erase i j (k ∷ xs) h = ground (arith, contains-erase i j xs)

pub erase-head : (i : ℕ) (xs : List ℕ) → erase i (i ∷ xs) ≡ xs
erase-head i xs = ground arith

pub contains-head : (i : ℕ) (xs : List ℕ) → contains i (i ∷ xs) ≡ true
contains-head i xs = ground arith

pub total-contains : (f : ℕ → ℕ) (i : ℕ) (xs : List ℕ) → contains i xs ≡ true → f i ≤ total f xs
total-contains f i xs h = omega (arith, total-erase f i xs h)

-- A sum that is positive has an element that is.
pub total_pos :
    (f : ℕ → ℕ) (xs : List ℕ) → 1 ≤ total f xs → (i : ℕ) × ((contains i xs ≡ true) × (1 ≤ f i))
total_pos f [] h = absurd (omega arith)
total_pos f (i ∷ xs) h = elim (Bool-cases (leb 1 (f i))) [
  | inl e ↦ (i, (contains-head i xs, ground arith))
  | inr e ↦ let (j, (c, k)) = total_pos f xs (ground arith) in (j, (ground arith, k))
]

pub free-set_free : (o : ℕ) (xs : List ℕ) (g : Group) → (set_free o xs g).free o ≡ xs
unfolding set_free
free-set_free o xs g = ground arith

pub free-set_free_other :
    (k o : ℕ) (xs : List ℕ) (g : Group) → (k == o) ≡ false → (set_free o xs g).free k ≡ g.free k
unfolding set_free
free-set_free_other k o xs g h = rw h refl

pub covers-set_free_above :
    (n o : ℕ) (xs : List ℕ) (g : Group) (p : ℕ)
    → n ≤ o
    → covers n (set_free o xs g) p ≡ covers n g p
covers-set_free_above zero o xs g p h = refl
covers-set_free_above (suc n) o xs g p h = ground (
  arith,
  free-set_free_other n o xs g (ground arith),
  covers-set_free_above n o xs g p (omega arith),
)

pub covers-set_free :
    (n o : ℕ) (xs : List ℕ) (g : Group) (p : ℕ)
    → o < n
    → covers n (set_free o xs g) p + total (block (2 ^ o) p) (g.free o)
      ≡ covers n g p + total (block (2 ^ o) p) xs
covers-set_free zero o xs g p h = absurd (omega arith)
covers-set_free (suc n) o xs g p h = elim (Bool-cases (n == o)) [
  | inl e ↦
      let q : n ≡ o = ground arith in
      rw (q, free-set_free o xs g) (omega (arith, covers-set_free_above o o xs g p (omega arith)))
  | inr e ↦
      rw (free-set_free_other n o xs g e) (omega (arith, covers-set_free n o xs g p (ground arith)))
]

total-covers :
    (n o : ℕ) (g : Group) (p : ℕ) → o < n → total (block (2 ^ o) p) (g.free o) ≤ covers n g p
total-covers zero o g p h = absurd (omega arith)
total-covers (suc n) o g p h = elim (Bool-cases (n == o)) [
  | inl e ↦ let q : o ≡ n = ground arith in rw q (omega arith)
  | inr e ↦ omega (arith, total-covers n o g p (ground arith))
]

-- A page of a free block is free.
pub total-cover :
    (o : ℕ) (g : Group) (p : ℕ) → o < 8 → total (block (2 ^ o) p) (g.free o) ≤ cover g p
unfolding cover
total-cover o g p h = total-covers 8 o g p h

pub pair_pos : (o q i : ℕ) → 1 ≤ pair o q i → i / 2 ^ suc o ≡ q
unfolding pair
pair_pos o q i h = ground arith

pub pair_self : (o i : ℕ) → pair o (i / 2 ^ suc o) i ≡ 1
unfolding pair
pair_self o i = ground arith
