-- ===== src/Page/Join.antt =====
-- kernel/mm/page.c: `__page_join` and `_page_free_order` in one group.
use abmp.Common.{
  ℕ, zero, suc, ◌+◌, ◌-◌, ◌/◌, ◌^◌, ◌≤◌, ◌<◌, ◌≡◌, refl, ap, sym, subst, inl, inr, true, false, ltb,
  ◌==◌, Bool-cases, arith, ◌∙◌,
}
use abmp.Page.Buddy.{
  Group, contains, erase, set_free, insert, list_remove, flip_parent, calculate_index, buddy,
  smaller, join_buddies, page_join, free_block,
}
use abmp.Page.Sums.{
  total, block, pair, cover, total-erase, contains-erase, total_pos, pair_pos, pair_self,
  contains-head, total-contains, total-cover, free-set_free,
}
use abmp.Page.Valid.{
  Some, Some-bind, Placed, odd, Valid, flipped, flip_parent-flipped, flipped-same, two_pow_pos,
}
use abmp.Page.Steps.{Moves, no_pages, insert-Valid, odd_twice, set_free-Valid, set_free-set_free}
use abmp.Page.Twins.{Twins, twins_lem, Twins-block, Twins-end, pair_same, block_first}
use abmp.Page.Take.{Same, Same-trans, Moves-trans, insert-free}

-- The other free block of a pair.
abbrev pub Partner : ℕ → ℕ → Group → ℕ → Type 0
Partner o i g j =
    (contains j (erase i (g.free o)) ≡ true) × ((j / 2 ^ suc o ≡ i / 2 ^ suc o) × Twins o i j)

-- A block is once in its list.
erase_apart :
    (o i j : ℕ) (g : Group)
    → o < 8
    → Valid g
    → contains i (g.free o) ≡ true
    → contains j (erase i (g.free o)) ≡ true
    → (i == j) ≡ false
erase_apart o i j g l v c d = elim (Bool-cases (i == j)) [
  | inl e ↦
      let q : j ≡ i = ground arith in
      let a = total-contains (block (2 ^ o) i) j (erase i (g.free o)) d in
      let b = subst (λ k. block (2 ^ o) i k ≤ total (block (2 ^ o) i) (erase i (g.free o))) q a in
      let t = total-erase (block (2 ^ o) i) i (g.free o) c in
      absurd (omega (arith, b, t, block_first o i, total-cover o g i l, v.1.0 i))
  | inr e ↦ e
]

even_two : (n : ℕ) → odd n ≡ false → 1 ≤ n → 2 ≤ n
unfolding odd
even_two n h l = ground arith

-- Where the bit of a free block is clear, its buddy is free as well.
pub find-Partner :
    (o i : ℕ) (g : Group)
    → suc o < 8
    → Valid g
    → contains i (g.free o) ≡ true
    → g.bits (suc o) (i / 2 ^ suc o) ≡ false
    → (j : ℕ) × Partner o i g j
find-Partner o i g l v c b =
    let f = pair o (i / 2 ^ suc o) in
    let xs = g.free o in
    let z = sym (v.1.1 o (i / 2 ^ suc o) (omega arith)) ∙ b in
    let s = pair_self o i in
    let t = even_two (total f xs) z (omega (arith, s, total-contains f i xs c)) in
    let (j, (d, k)) = total_pos f (erase i xs) (omega (arith, s, t, total-erase f i xs c)) in
    let e = pair_pos o (i / 2 ^ suc o) j k in
    let a = erase_apart o i j g (omega arith) v c d in
    let p = v.0 o i (omega arith) c in
    let q = v.0 o j (omega arith) (contains-erase i j xs d) in
    (j, (d, (e, twins_lem o i j p.0 q.0 (sym e) a)))

-- Both of a pair leave the list; together they are a block of the order above.
partners-Valid :
    (o i j : ℕ) (g : Group)
    → suc o < 8
    → Valid g
    → contains i (g.free o) ≡ true
    → Partner o i g j
    → Placed g.npages (suc o) (smaller i j)
      × (Valid (set_free o (erase j (erase i (g.free o))) g)
          × Moves no_pages
              (λ p. block (2 ^ suc o) p (smaller i j))
              g
              (set_free o (erase j (erase i (g.free o))) g))
partners-Valid o i j g l v c (d, (e, w)) =
    let xs = g.free o in
    let p = v.0 o i (omega arith) c in
    let q = v.0 o j (omega arith) (contains-erase i j xs d) in
    (
      (w.1.0, Twins-end o i j g.npages w p.1 q.1),
      set_free-Valid o (erase j (erase i xs)) g no_pages (λ p. block (2 ^ suc o) p (smaller i j))
          (omega arith) v
          (λ k h. v.0 o k (omega arith) (contains-erase i k xs (contains-erase j k (erase i xs) h)))
          (λ p. omega (
            arith,
            Twins-block o i j p w,
            total-erase (block (2 ^ o) p) i xs c,
            total-erase (block (2 ^ o) p) j (erase i xs) d,
          ))
          (λ p. omega (arith, v.1.0 p))
          (λ q.
            ap odd (omega (arith, total-erase (pair o q) i xs c, pair_same o i j q e))
            ∙ odd_twice (total (pair o q) (erase j (erase i xs))) (total (pair o q) (erase i xs))
                (pair o q j) (total-erase (pair o q) j (erase i xs) d)),
    )

insert-npages : (o i : ℕ) (g : Group) → (insert o i g).npages ≡ g.npages
unfolding insert set_free
insert-npages o i g = refl

-- A block enters a list and its bit is flipped.
pub put_block :
    (o i : ℕ) (g : Group)
    → o < 8
    → Valid g
    → Placed g.npages o i
    → ((p : ℕ) → cover g p + block (2 ^ o) p i ≤ 1)
    → Some
        (λ g'.
          (Valid g' × Moves (λ p. block (2 ^ o) p i) no_pages g g')
          × (contains i (g'.free o) ≡ true))
        (flip_parent o i (insert o i g))
put_block o i g l v a d =
    let s = flipped o i (insert o i g) in
    let f = ap (λ h. h o) ((flipped-same o i (insert o i g)).0) ∙ insert-free o i g in
    (
      s,
      (
        flip_parent-flipped o i (insert o i g)
            (rw (insert-npages o i g) (omega (arith, a.1, two_pow_pos o))),
        (insert-Valid o i g l v a d, rw f (contains-head i (g.free o))),
      ),
    )

pub join_buddies-Same :
    (o i : ℕ) (g : Group)
    → suc o < 8
    → Valid g
    → contains i (g.free o) ≡ true
    → g.bits (suc o) (i / 2 ^ suc o) ≡ false
    → Some
        (λ g'. Same g g' × (contains (smaller i (buddy o i)) (g'.free (suc o)) ≡ true))
        (join_buddies o i g)
unfolding join_buddies list_remove
join_buddies-Same o i g l v c b =
    let (j, (d, (e, w))) = find-Partner o i g l v c b in
    let xs = g.free o in
    let s = set_free o (erase j (erase i xs)) g in
    let (p, (v', m)) = partners-Valid o i j g l v c (d, (e, w)) in
    let p' : Placed s.npages (suc o) (smaller i j) = rw m.1.0 p in
    let (g', (x, (y, z))) =
      put_block (suc o) (smaller i j) s l v' p' (λ p. omega (arith, m.1.1 p, v.1.0 p)) in
    let t = Moves-trans g s g' no_pages (λ p. block (2 ^ suc o) p (smaller i j)) m y.1 in
    rw
      (
        sym w.0,
        c,
        free-set_free o (erase i xs) g,
        d,
        set_free-set_free o (erase i xs) (erase j (erase i xs)) g,
      )
      (g', (x, ((y.0, t), z)))

pub page_join-Same :
    (n o i : ℕ) (g : Group)
    → n + o ≡ 7
    → Valid g
    → contains i (g.free o) ≡ true
    → Some (Same g) (page_join n o i g)
unfolding page_join calculate_index
page_join-Same zero o i g l v c = (g, (refl, (v, (refl, (refl, (λ p. refl))))))
page_join-Same (suc n) o i g l v c =
    let p = v.0 o i (omega arith) c in
    let t : ltb (suc o) 8 ≡ true = ground arith in
    let t' : ltb i g.npages ≡ true = ground (arith, p.1, two_pow_pos o) in
    elim (Bool-cases (g.bits (suc o) (i / 2 ^ suc o))) [
      | inl e ↦ rw (t, t', e) (g, (refl, (v, (refl, (refl, (λ p. refl))))))
      | inr e ↦
          rw (t, t', e)
            (Some-bind (join_buddies-Same o i g (omega arith) v c e) (λ g' (s, k).
              let (g'', (x, s')) =
                page_join-Same n (suc o) (smaller i (buddy o i)) g' (omega arith) s.0 k in
              (g'', (x, Same-trans g g' g'' s s'))))
    ]

pub flipped_top : (o i : ℕ) (g : Group) → ltb o 7 ≡ false → flipped o i g ≡ g
unfolding flipped
flipped_top o i g e = rw e refl

Moves-Same :
    (g g' g'' : Group) (f : ℕ → ℕ)
    → Moves f no_pages g g'
    → Moves no_pages no_pages g' g''
    → Moves f no_pages g g''
Moves-Same g g' g'' f (a, (b, c)) (a', (b', c')) =
    (a' ∙ a, (b' ∙ b, (λ p. omega (arith, c p, c' p))))

pub free_block-Valid :
    (o i : ℕ) (g : Group)
    → o < 8
    → Valid g
    → Placed g.npages o i
    → ((p : ℕ) → cover g p + block (2 ^ o) p i ≤ 1)
    → Some (λ g'. Valid g' × Moves (λ p. block (2 ^ o) p i) no_pages g g') (free_block o i g)
unfolding free_block
free_block-Valid o i g l v a d = elim (Bool-cases (ltb o 7)) [
  | inl e ↦ rw e (
      Some-bind (put_block o i g l v a d) (λ g' (y, c).
        let (g'', (x, s)) = page_join-Same (7 - o) o i g' (omega arith) y.0 c in
        (g'', (x, (s.0, Moves-Same g g' g'' (λ p. block (2 ^ o) p i) y.1 s.1)))))
  | inr e ↦
      let P : Group → Type 0 = λ g'. Valid g' × Moves (λ p. block (2 ^ o) p i) no_pages g g' in
      let w = subst P (flipped_top o i (insert o i g) e) (insert-Valid o i g l v a d) in
      rw e (insert o i g, (refl, w))
]
