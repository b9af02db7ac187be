-- ===== src/Page/Take.antt =====
-- kernel/mm/page.c: `__page_split`, `_page_split` and the end of `_page_alloc_order` in one group.
use abmp.Common.{
  ℕ, zero, suc, ◌+◌, ◌/◌, ◌^◌, ◌≤◌, ◌<◌, ◌≡◌, refl, ap, sym, subst, inl, inr, true, false, ltb, leb,
  List, ◌∷◌, Bool-cases, arith, some, List-cases, ◌∙◌,
}
use abmp.Page.Buddy.{
  Group, is_nil, contains, erase, set_free, insert, pop, flip_parent, calculate_index, take_block,
  split_block, split_down,
}
use abmp.Page.Sums.{
  total, block, pair, cover, total_pos, pair_pos, erase-head, contains-head, total-contains,
  total-cover, free-set_free,
}
use abmp.Page.Valid.{Some, Some-bind, Placed, odd, Valid, flipped, flip_parent-flipped, two_pow_pos}
use abmp.Page.Steps.{
  Moves, no_pages, erase-Valid, cons-Placed, odd_twice, set_free-Valid, set_free-set_free,
}
use abmp.Page.Twins.{
  Aligned, block-halves, block_first, inside, pair-halves, halves-Aligned, double,
}

-- The first block of a list leaves it.
pop-Valid :
    (o i : ℕ) (xs : List ℕ) (g : Group)
    → o < 8
    → Valid g
    → g.free o ≡ i ∷ xs
    → Placed g.npages o i
      × ((flip_parent o i (set_free o xs g) ≡ some (flipped o i (set_free o xs g)))
          × (Valid (flipped o i (set_free o xs g))
              × Moves no_pages (λ p. block (2 ^ o) p i) g (flipped o i (set_free o xs g))))
unfolding set_free
pop-Valid o i xs g l v e =
    let c : contains i (g.free o) ≡ true = rw e (contains-head i xs) in
    let w = v.0 o i l c in
    let r = ap (erase i) e ∙ erase-head i xs in
    let P : List ℕ → Type 0 = λ ys.
      Valid (flipped o i (set_free o ys g))
      × Moves no_pages (λ p. block (2 ^ o) p i) g (flipped o i (set_free o ys g)) in
    (
      w,
      (
        flip_parent-flipped o i (set_free o xs g) (omega (arith, w.1, two_pow_pos o)),
        subst P r (erase-Valid o i g l v c),
      ),
    )

-- The result of an allocation of a block: its number and the group that is left.
abbrev pub Taken : ℕ → Group → ℕ × Group → Type 0
Taken o g (i, g') = Placed g.npages o i × (Valid g' × Moves no_pages (λ p. block (2 ^ o) p i) g g')

pub take_block-Taken :
    (o : ℕ) (g : Group)
    → o < 8
    → Valid g
    → is_nil (g.free o) ≡ false
    → Some (Taken o g) (take_block o g)
unfolding take_block pop
take_block-Taken o g l v h = elim (List-cases (g.free o)) [
  | inl e ↦ let n = ap is_nil e in cc
  | inr (i, (xs, e)) ↦
      let (w, (f, k)) = pop-Valid o i xs g l v e in
      ((i, flipped o i (set_free o xs g)), (rw (e, f) refl, (w, k)))
]

-- No bit is set for a block whose pages are taken.
bits_clear :
    (o i : ℕ) (g : Group)
    → suc o < 8
    → Valid g
    → Aligned (suc o) i
    → ((p : ℕ) → cover g p + block (2 ^ suc o) p i ≤ 1)
    → g.bits (suc o) (i / 2 ^ suc o) ≡ false
unfolding odd
bits_clear o i g l v a d = elim (Bool-cases (leb 1 (total (pair o (i / 2 ^ suc o)) (g.free o)))) [
  | inl e ↦
      let (j, (c, k)) = total_pos (pair o (i / 2 ^ suc o)) (g.free o) (ground arith) in
      let a₁ = block_first o j in
      let a₂ = inside o i j a (pair_pos o (i / 2 ^ suc o) j k) in
      let a₃ = total-contains (block (2 ^ o) j) j (g.free o) c in
      absurd (omega (arith, a₁, a₂, a₃, total-cover o g j (omega arith), d j))
  | inr e ↦
      let z : total (pair o (i / 2 ^ suc o)) (g.free o) ≡ 0 = ground arith in
      v.1.1 o (i / 2 ^ suc o) (omega arith) ∙ ap odd z
]

halves-Valid :
    (o i : ℕ) (g : Group)
    → suc o < 8
    → Valid g
    → Placed g.npages (suc o) i
    → ((p : ℕ) → cover g p + block (2 ^ suc o) p i ≤ 1)
    → Valid (insert o (i + 2 ^ o) (insert o i g))
      × Moves (λ p. block (2 ^ suc o) p i) no_pages g (insert o (i + 2 ^ o) (insert o i g))
unfolding insert
halves-Valid o i g l v a d =
    let ys = (i + 2 ^ o) ∷ (i ∷ g.free o) in
    let P : Group → Type 0 = λ g'. Valid g' × Moves (λ p. block (2 ^ suc o) p i) no_pages g g' in
    let e : insert o (i + 2 ^ o) (insert o i g) ≡ set_free o ys g =
      rw (free-set_free o (i ∷ g.free o) g) (set_free-set_free o (i ∷ g.free o) ys g) in
    let (b, b') = halves-Aligned o i a.0 in
    let c =
      cons-Placed o (i + 2 ^ o) g.npages (i ∷ g.free o) (b', omega (arith, a.1, double o))
        (cons-Placed o i g.npages (g.free o) (b, omega (arith, a.1, double o))
          (λ j k. v.0 o j (omega arith) k)) in
    subst P (sym e) (
      set_free-Valid o ys g (λ p. block (2 ^ suc o) p i) no_pages (omega arith) v c
        (λ p. omega (arith, block-halves o i p)) (λ p. omega (arith, d p))
        (λ q.
          sym (
            odd_twice (total (pair o q) (g.free o)) (total (pair o q) (g.free o) + pair o q i)
              (pair o q i) refl)
          ∙ ap odd (omega (arith, pair-halves o i q a.0))))

-- A group rearranged: the same pages are free.
abbrev pub Same : Group → Group → Type 0
Same g g' = Valid g' × Moves no_pages no_pages g g'

pub insert-free : (o i : ℕ) (g : Group) → (insert o i g).free o ≡ i ∷ g.free o
unfolding insert
insert-free o i g = free-set_free o (i ∷ g.free o) g

-- Pages that leave and come back.
pub Moves-trans :
    (g g' g'' : Group) (f h : ℕ → ℕ)
    → Moves f h g g'
    → Moves h f g' g''
    → Moves no_pages no_pages g g''
Moves-trans g g' g'' f h (a, (b, c)) (a', (b', c')) =
    (a' ∙ a, (b' ∙ b, (λ p. omega (arith, c p, c' p))))

pub split_block-Same :
    (o : ℕ) (g : Group)
    → suc o < 8
    → Valid g
    → is_nil (g.free (suc o)) ≡ false
    → Some (λ g'. Same g g' × (is_nil (g'.free o) ≡ false)) (split_block o g)
unfolding split_block pop calculate_index
split_block-Same o g l v h = elim (List-cases (g.free (suc o))) [
  | inl e ↦ let n = ap is_nil e in cc
  | inr (i, (xs, e)) ↦
      let (w, (f, (k, m))) = pop-Valid (suc o) i xs g l v e in
      let g' = flipped (suc o) i (set_free (suc o) xs g) in
      let d : (p : ℕ) → cover g' p + block (2 ^ suc o) p i ≤ 1 =
        λ p. omega (arith, m.1.1 p, v.1.0 p) in
      let b = bits_clear o i g' l k w.0 d in
      let w' : Placed g'.npages (suc o) i = rw m.1.0 w in
      let (k', m') = halves-Valid o i g' l k w' d in
      let t : ltb (suc o) 8 ≡ true = ground arith in
      let t' : ltb i g'.npages ≡ true = ground (arith, w'.1, two_pow_pos (suc o)) in
      let s = insert o (i + 2 ^ o) (insert o i g') in
      (
        s,
        (
          rw (t, e, f, t', b) refl,
          (
            (k', Moves-trans g g' s no_pages (λ p. block (2 ^ suc o) p i) m m'),
            ap is_nil (insert-free o (i + 2 ^ o) (insert o i g')),
          ),
        ),
      )
]

pub Same-trans : (g g' g'' : Group) → Same g g' → Same g' g'' → Same g g''
Same-trans g g' g'' (v, m) (v', m') = (v', Moves-trans g g' g'' no_pages no_pages m m')

pub split_down-Same :
    (k o : ℕ) (g : Group)
    → k + o < 8
    → Valid g
    → is_nil (g.free (k + o)) ≡ false
    → Some (λ g'. Same g g' × (is_nil (g'.free o) ≡ false)) (split_down k o g)
unfolding split_down
split_down-Same zero o g l v h = (
  g,
  (
    refl,
    ((v, (refl, (refl, (λ p. refl)))), subst (λ n. is_nil (g.free n) ≡ false) (omega arith) h),
  ),
)
split_down-Same (suc k) o g l v h =
    let a : suc k + o ≡ suc (k + o) = omega arith in
    Some-bind
      (split_block-Same (k + o) g (omega arith) v (subst (λ n. is_nil (g.free n) ≡ false) a h))
      (λ g' (s, n).
        let (g'', (e, (s', n'))) = split_down-Same k o g' (omega arith) s.0 n in
        (g'', (e, (Same-trans g g' g'' s s', n'))))
