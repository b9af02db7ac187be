-- ===== src/Page/Count.antt =====
-- kernel/mm/page.c: the number of free pages, and what holds of all groups together.
use abmp.Common.{
  ℕ, zero, suc, ◌+◌, ◌-◌, ◌^◌, ◌≤◌, ◌<◌, ◌≡◌, refl, ap, sym, subst, inl, inr, ◌⊎◌, true, leb, ltb,
  List, [], ◌∷◌, ◌++◌, map, map-append, if◌then◌else◌, Bool-cases, arith, All, ◌∙◌, ◌&&◌,
}
use abmp.Page.{Pages}
use abmp.Page.Buddy.{Group}
use abmp.Page.Sums.{cover, covers, block, total, total_pos}
use abmp.Page.Walk.{free_at}
use abmp.Page.Valid.{Valid, Placed}
use abmp.Page.Steps.{Moves, no_pages}

abbrev pub upto : ℕ → (ℕ → ℕ) → ℕ
upto zero f = 0
upto (suc n) f = f n + upto n f

pub upto_move :
    (n : ℕ) (c c' f h : ℕ → ℕ)
    → ((p : ℕ) → c' p + h p ≡ c p + f p)
    → upto n c' + upto n h ≡ upto n c + upto n f
upto_move zero c c' f h e = refl
upto_move (suc n) c c' f h e = omega (arith, e n, upto_move n c c' f h e)

upto-block :
    (n s i : ℕ)
    → upto n (λ p. block s p i) ≡ (if leb n i then 0 else if leb n (i + s) then n - i else s)
unfolding block
upto-block zero s i = ground arith
upto-block (suc n) s i = ground (arith, upto-block n s i)

-- A block inside the range adds its size.
pub upto_inside : (n s i : ℕ) → 1 ≤ s → i + s ≤ n → upto n (λ p. block s p i) ≡ s
upto_inside n s i h l = ground (arith, upto-block n s i)

pub upto_zero : (n : ℕ) → upto n no_pages ≡ 0
upto_zero zero = refl
upto_zero (suc n) = omega (arith, upto_zero n)

pub upto_most : (n : ℕ) (c : ℕ → ℕ) → ((p : ℕ) → c p ≤ 1) → upto n c ≤ n
upto_most zero c h = omega arith
upto_most (suc n) c h = omega (arith, h n, upto_most n c h)

-- The free pages of the groups.
abbrev pub free_total : List Group → ℕ
free_total [] = 0
free_total (g ∷ gs) = upto g.npages (cover g) + free_total gs

pub free_total-append : (xs ys : List Group) → free_total (xs ++ ys) ≡ free_total xs + free_total ys
free_total-append [] ys = omega arith
free_total-append (x ∷ xs) ys = omega (arith, free_total-append xs ys)

pub free_total-replaced :
    (xs ys : List Group) (g g' : Group) (f h : ℕ → ℕ)
    → Moves f h g g'
    → free_total (xs ++ (g' ∷ ys)) + upto g.npages h ≡ free_total (xs ++ (g ∷ ys)) + upto g.npages f
free_total-replaced xs ys g g' f h (_, (n, k)) =
    let m = ap (λ b. upto b (cover g')) n in
    omega (
      arith,
      free_total-append xs (g ∷ ys),
      free_total-append xs (g' ∷ ys),
      m,
      upto_move g.npages (cover g) (cover g') f h k,
    )

-- The first page and the number of pages of a group.
abbrev pub extent : Group → ℕ × ℕ
extent g = (g.base, g.npages)

abbrev pub span : List (ℕ × ℕ) → ℕ
span [] = 0
span ((b, n) ∷ es) = n + span es

pub free_total-span : (gs : List Group) → All Valid gs → free_total gs ≤ span (map extent gs)
free_total-span [] h = omega arith
free_total-span (g ∷ gs) h =
    omega (arith, upto_most g.npages (cover g) h.0.1.0, free_total-span gs h.1)

abbrev pub Separate : ℕ × ℕ → ℕ × ℕ → Type 0
Separate (b, n) (b', n') = (b + n ≤ b') ⊎ (b' + n' ≤ b)

-- No two groups share a page.
abbrev pub Apart : List (ℕ × ℕ) → Type 0
Apart [] = Unit
Apart (e ∷ es) = All (Separate e) es × Apart es

-- Every group is valid, no two of them overlap, and `page_freecount` is the number of free pages.
abbrev pub AllValid : Pages → Type 0
AllValid s =
    All Valid s.groups
    × (Apart (map extent s.groups)
        × ((span (map extent s.groups) < 4294967296) × (s.freecount ≡ free_total s.groups)))

pub extents-replaced :
    (xs ys : List Group) (g g' : Group)
    → g'.base ≡ g.base
    → g'.npages ≡ g.npages
    → map extent (xs ++ (g' ∷ ys)) ≡ map extent (xs ++ (g ∷ ys))
extents-replaced [] ys g g' b n = rw (b, n) refl
extents-replaced (x ∷ xs) ys g g' b n = ap (λ l. extent x ∷ l) (extents-replaced xs ys g g' b n)

pub All-replaced {ℓ} :
    (P : Group → Type ℓ) (xs ys : List Group) (g g' : Group)
    → P g'
    → All P (xs ++ (g ∷ ys))
    → All P (xs ++ (g' ∷ ys))
All-replaced P [] ys g g' p h = (p, h.1)
All-replaced P (x ∷ xs) ys g g' p h = (h.0, All-replaced P xs ys g g' p h.1)

pub All-middle {ℓ κ} :
    {A : Type ℓ} (P : A → Type κ) (xs ys : List A) (g : A) → All P (xs ++ (g ∷ ys)) → P g
All-middle P [] ys g h = h.0
All-middle P (x ∷ xs) ys g h = All-middle P xs ys g h.1

pub All-map {ℓ κ μ} :
    {A : Type ℓ} (P : A → Type κ) (Q : A → Type μ) (xs : List A)
    → ((a : A) → P a → Q a)
    → All P xs
    → All Q xs
All-map P Q [] f h = tt
All-map P Q (x ∷ xs) f h = (f x h.0, All-map P Q xs f h.1)

pub replaced-AllValid :
    (s : Pages) (xs ys : List Group) (g g' : Group) (c : ℕ)
    → AllValid s
    → s.groups ≡ xs ++ (g ∷ ys)
    → Valid g'
    → g'.base ≡ g.base
    → g'.npages ≡ g.npages
    → c ≡ free_total (xs ++ (g' ∷ ys))
    → AllValid (record s { groups = xs ++ (g' ∷ ys); freecount = c })
      × (map extent (xs ++ (g' ∷ ys)) ≡ map extent s.groups)
replaced-AllValid s xs ys g g' c (v, (a, (l, _))) e w b n k =
    let x = extents-replaced xs ys g g' b n ∙ ap (map extent) (sym e) in
    (
      (
        All-replaced Valid xs ys g g' w (subst (All Valid) e v),
        (subst Apart (sym x) a, (subst (λ es. span es < 4294967296) (sym x) l, k)),
      ),
      x,
    )

-- A group that holds the block `a` of the order `o`, in a list of groups.
abbrev pub Owned : ℕ → ℕ → List (ℕ × ℕ) → Type 0
Owned o a es =
    (xs : List (ℕ × ℕ)) × ((b : ℕ) × ((n : ℕ) × ((ys : List (ℕ × ℕ)) × ((es ≡ xs ++ ((b, n) ∷ ys))
            × ((b ≤ a) × Placed n o (a - b))))))

pub middle-Owned :
    (o i : ℕ) (gs xs ys : List Group) (g : Group)
    → gs ≡ xs ++ (g ∷ ys)
    → Placed g.npages o i
    → Owned o (g.base + i) (map extent gs)
middle-Owned o i gs xs ys g e p =
    let z : g.base + i - g.base ≡ i = omega arith in
    (
      map extent xs,
      (
        g.base,
        (
          g.npages,
          (
            map extent ys,
            (ap (map extent) e ∙ map-append extent xs (g ∷ ys), (omega arith, rw z p)),
          ),
        ),
      ),
    )

-- The pages of a block, seen from the group and by their addresses.
pub block-shift : (s b i a : ℕ) → block s a (b + i) ≡ (if leb b a then block s (a - b) i else 0)
unfolding block
block-shift s b i a = ground arith

pub All-both {ℓ κ μ} :
    {A : Type ℓ} (P : A → Type κ) (Q : A → Type μ) (xs : List A)
    → All P xs
    → All Q xs
    → All (λ a. P a × Q a) xs
All-both P Q [] h k = tt
All-both P Q (x ∷ xs) h k = ((h.0, k.0), All-both P Q xs h.1 k.1)

pub All-extents {ℓ} :
    (P : ℕ × ℕ → Type ℓ) (gs : List Group) → All P (map extent gs) → All (λ g. P (extent g)) gs
All-extents P [] h = tt
All-extents P (g ∷ gs) h = (h.0, All-extents P gs h.1)

pub block-shift_in : (s b a p : ℕ) → b ≤ a → block s (b + p) a ≡ block s p (a - b)
unfolding block
block-shift_in s b a p h = ground arith

pub extents-All {ℓ} :
    (P : ℕ × ℕ → Type ℓ) (gs : List Group) → All (λ g. P (extent g)) gs → All P (map extent gs)
extents-All P [] h = tt
extents-All P (g ∷ gs) h = (h.0, extents-All P gs h.1)

block_end : (s p i : ℕ) → 1 ≤ block s p i → p < i + s
unfolding block
block_end s p i h = ground arith

covers_outside : (n : ℕ) (g : Group) (p : ℕ) → n ≤ 8 → Valid g → g.npages ≤ p → covers n g p ≡ 0
covers_outside zero g p l v h = refl
covers_outside (suc n) g p l v h = elim (Bool-cases (leb 1 (total (block (2 ^ n) p) (g.free n)))) [
  | inl e ↦
      let (i, (c, k)) = total_pos (block (2 ^ n) p) (g.free n) (ground arith) in
      absurd (omega (arith, (v.0 n i (omega arith) c).1, block_end (2 ^ n) p i k))
  | inr e ↦
      let z : total (block (2 ^ n) p) (g.free n) ≡ 0 = ground arith in
      omega (arith, z, covers_outside n g p (omega arith) v h)
]

-- The pages past the end are not free.
cover_outside : (g : Group) (p : ℕ) → Valid g → g.npages ≤ p → cover g p ≡ 0
unfolding cover
cover_outside g p v h = covers_outside 8 g p (omega arith) v h

free_at_apart :
    (e : ℕ × ℕ) (gs : List Group) (a : ℕ)
    → All Valid gs
    → All (Separate e) (map extent gs)
    → e.0 ≤ a
    → a < e.0 + e.1
    → free_at gs a ≡ 0
free_at_apart e [] a v h l k = refl
free_at_apart e (g ∷ gs) a v h l k = elim h.0 [
  | inl s ↦ let r = free_at_apart e gs a v.1 h.1 l k in ground arith
  | inr s ↦
      let r = free_at_apart e gs a v.1 h.1 l k in
      let c = cover_outside g (a - g.base) v.0 (omega arith) in ground (arith, r, c)
]

-- A page is in one free block at most.
pub free_at_most :
    (gs : List Group) (a : ℕ) → All Valid gs → Apart (map extent gs) → free_at gs a ≤ 1
free_at_most [] a v h = omega arith
free_at_most (g ∷ gs) a v h = elim (Bool-cases (leb g.base a && ltb a (g.base + g.npages))) [
  | inl e ↦
      let z = free_at_apart (extent g) gs a v.1 h.0 (ground arith) (ground arith) in
      ground (arith, z, v.0.1.0 (a - g.base))
  | inr e ↦
      let z = free_at_most gs a v.1 h.1 in
      let c : leb g.base a ≡ true → cover g (a - g.base) ≡ 0 =
        λ w. cover_outside g (a - g.base) v.0 (ground arith) in
      ground (arith, z, c)
]
