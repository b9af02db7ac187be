-- ===== src/Page/Release.antt =====
-- kernel/mm/page.c: `_page_free_order`.
use abmp.Common.{
  ℕ, ◌+◌, ◌-◌, ◌^◌, ◌≤◌, ◌<◌, ◌≡◌, refl, ap, sym, subst, inl, inr, true, false, leb, ltb, List, [],
  ◌∷◌, ◌++◌, map, arith, All, ◌∙◌, Option, some, none, ◌>>=◌, u32, ◌&&◌,
}
use abmp.Page.{Pages, in_group, page_free_order}
use abmp.Page.Buddy.{Group, free_block}
use abmp.Page.Sums.{cover, block}
use abmp.Page.Valid.{Some, Valid, Placed, two_pow_pos}
use abmp.Page.Steps.{Moves, no_pages}
use abmp.Page.Join.{free_block-Valid}
use abmp.Page.Walk.{Reached, update_first-Reached, free_at, free_at-replaced}
use abmp.Page.Count.{
  upto_inside, upto_zero, free_total, free_total-replaced, extent, free_total-span, AllValid, Apart,
  Separate, All-map, All-both, All-middle, All-extents, extents-All, replaced-AllValid, Owned,
  block-shift, block-shift_in,
}

-- The group of an address has the whole block.
abbrev pub Holds : ℕ → ℕ → ℕ × ℕ → Type 0
Holds o a (b, n) = (leb b a && ltb a (b + n)) ≡ true → (b ≤ a) × Placed n o (a - b)

-- A group apart from the one that has the block does not have the address.
Separate-Holds :
    (o a b n : ℕ) → b ≤ a → Placed n o (a - b) → (e : ℕ × ℕ) → Separate (b, n) e → Holds o a e
Separate-Holds o a b n l p (b', n') (inl h) k = absurd (ground (arith, p.1, two_pow_pos o))
Separate-Holds o a b n l p (b', n') (inr h) k = absurd (ground (arith, p.1, two_pow_pos o))

pub Separate-sym : (d e : ℕ × ℕ) → Separate d e → Separate e d
Separate-sym d e (inl h) = inr h
Separate-sym d e (inr h) = inl h

pub Owned-Holds :
    (o a : ℕ) (xs ys : List (ℕ × ℕ)) (b n : ℕ)
    → Apart (xs ++ ((b, n) ∷ ys))
    → b ≤ a
    → Placed n o (a - b)
    → All (Holds o a) (xs ++ ((b, n) ∷ ys))
Owned-Holds o a [] ys b n h l p =
    ((λ _. (l, p)), All-map (Separate (b, n)) (Holds o a) ys (Separate-Holds o a b n l p) h.0)
Owned-Holds o a (x ∷ xs) ys b n h l p =
    let s = All-middle (Separate x) xs ys (b, n) h.0 in
    (Separate-Holds o a b n l p x (Separate-sym x (b, n) s), Owned-Holds o a xs ys b n h.1 l p)

-- A page that is free in a group is free.
cover-free_at :
    (gs all : List Group)
    → ((a : ℕ) → free_at gs a ≤ free_at all a)
    → All (λ g. (p : ℕ) → cover g p ≤ free_at all (g.base + p)) gs
cover-free_at [] all h = tt
cover-free_at (g ∷ gs) all h = (
  (λ p.
      let z : g.base + p - g.base ≡ p = omega arith in
      ground (arith, h (g.base + p), ap (cover g) z)),
  cover-free_at gs all (λ a. omega (arith, h a)),
)

-- The block at the address `a` freed in its group.
abbrev pub FreedAt : ℕ → ℕ → Group → ℕ → Group → Type 0
FreedAt o a g x g' =
    (g.base ≤ a)
    × (Placed g.npages o (a - g.base)
        × (Valid g' × Moves (λ p. block (2 ^ o) p (a - g.base)) no_pages g g'))

free_block-FreedAt :
    (o a : ℕ) (all : List Group) (g : Group)
    → o < 8
    → ((a' : ℕ) → free_at all a' + block (2 ^ o) a' a ≤ 1)
    → Valid g
    → Holds o a (extent g)
    → ((p : ℕ) → cover g p ≤ free_at all (g.base + p))
    → in_group a g ≡ true
    → Some
        (λ (r : ℕ × Group). FreedAt o a g r.0 r.1)
        (free_block o (a - g.base) g >>= λ g'. some (0, g'))
free_block-FreedAt o a all g l d v h c e =
    let (b, p) = h e in
    let k : (p : ℕ) → cover g p + block (2 ^ o) p (a - g.base) ≤ 1 =
      λ p. omega (arith, c p, d (g.base + p), block-shift_in (2 ^ o) g.base a p b) in
    let (g', (x, (w, m))) = free_block-Valid o (a - g.base) g l v p k in
    rw x ((0, g'), (refl, (b, (p, (w, m)))))

-- The state after the block at the address `a` is given back.
abbrev pub Freed : ℕ → ℕ → Pages → Pages → Type 0
Freed o a s s' =
    AllValid s'
    × ((map extent s'.groups ≡ map extent s.groups)
        × ((s'.freecount ≡ s.freecount + 2 ^ o)
            × ((a' : ℕ) → free_at s'.groups a' ≡ free_at s.groups a' + block (2 ^ o) a' a)))

FreedAt-Freed :
    (o a x : ℕ) (s : Pages) (xs ys : List Group) (g g' : Group)
    → AllValid s
    → s.groups ≡ xs ++ (g ∷ ys)
    → FreedAt o a g x g'
    → Freed o a s (record s { groups = xs ++ (g' ∷ ys); freecount = u32 (s.freecount + 2 ^ o) })
FreedAt-Freed o a x s xs ys g g' v e (b, (p, (w, m))) =
    let gs' = xs ++ (g' ∷ ys) in
    let i = a - g.base in
    let t = free_total-replaced xs ys g g' (λ p. block (2 ^ o) p i) no_pages m in
    let u = upto_inside g.npages (2 ^ o) i (two_pow_pos o) p.1 in
    let z = upto_zero g.npages in
    let n : free_total gs' ≡ s.freecount + 2 ^ o =
      omega (arith, t, u, z, v.1.1.1, ap free_total e) in
    let y = replaced-AllValid s xs ys g g' (free_total gs') v e w m.0 m.1.0 refl in
    let l : free_total gs' < 4294967296 = omega (arith, free_total-span gs' y.0.0, y.0.1.1.0) in
    let c : u32 (s.freecount + 2 ^ o) ≡ free_total gs' = omega (arith, n, l) in
    let (v', q) = replaced-AllValid s xs ys g g' (u32 (s.freecount + 2 ^ o)) v e w m.0 m.1.0 c in
    (
      v',
      (
        q,
        (
          omega (arith, c, n),
          (λ a'.
              let r = free_at-replaced xs ys g g' (λ p. block (2 ^ o) p i) no_pages a' m.0 m.1.1 in
              let y' : g.base + i ≡ a = omega arith in
              let f = ap (λ z. block (2 ^ o) a' z) (sym y') ∙ block-shift (2 ^ o) g.base i a' in
              ground (arith, r, f, ap (λ gs. free_at gs a') e)),
        ),
      ),
    )

-- Some group has the address.
Owned-somewhere :
    (o a : ℕ) (gs : List Group) → Owned o a (map extent gs) → All (λ g. in_group a g ≡ false) gs → ⊥
Owned-somewhere o a gs (xs, (b, (n, (ys, (e, (h, p)))))) k =
    let P : ℕ × ℕ → Type 0 = λ d. (leb d.0 a && ltb a (d.0 + d.1)) ≡ false in
    let c = All-middle P xs ys (b, n) (subst (All P) e (extents-All P gs k)) in
    ground (arith, c, h, p.1, two_pow_pos o)

finish :
    (o a : ℕ) (s : Pages) (r : Option ℕ × List Group)
    → AllValid s
    → Owned o a (map extent s.groups)
    → Reached (in_group a) (FreedAt o a) s.groups r
    → Some (Freed o a s) (elim r.0 [
      | some x ↦ some (record s { groups = r.1; freecount = u32 (s.freecount + 2 ^ o) })
      | none ↦ some s
    ])
finish o a s (none, gs') v w (_, k) = absurd (Owned-somewhere o a s.groups w k)
finish o a s (some x, gs') v w (xs, (g, (g', (ys, (e, (e', (_, t))))))) =
    let c = u32 (s.freecount + 2 ^ o) in
    (
      record s { groups = gs'; freecount = c },
      (
        refl,
        subst (λ l. Freed o a s (record s { groups = l; freecount = c })) (sym e')
            (FreedAt-Freed o a x s xs ys g g' v e t),
      ),
    )

-- In a valid state, `_page_free_order` of an aligned block inside a group, none of whose pages is free,
-- succeeds: its pages become free, no other page changes, the free count grows by the block's size,
-- the groups are where they were, and the state is valid.
pub page_free_order-Freed :
    (o a : ℕ) (s : Pages)
    → o < 8
    → AllValid s
    → Owned o a (map extent s.groups)
    → ((a' : ℕ) → free_at s.groups a' + block (2 ^ o) a' a ≤ 1)
    → Some (Freed o a s) (page_free_order a o s)
unfolding page_free_order
page_free_order-Freed o a s l v (xs, (b, (n, (ys, (e, (h, p)))))) d =
    let es = subst Apart e v.1.0 in
    let hs =
      All-extents (Holds o a) s.groups
        (subst (All (Holds o a)) (sym e) (Owned-Holds o a xs ys b n es h p)) in
    let cs = cover-free_at s.groups s.groups (λ a. omega arith) in
    let ts =
      All-map
        (λ g.
          Valid g × (Holds o a (extent g) × ((p : ℕ) → cover g p ≤ free_at s.groups (g.base + p))))
        (λ g.
          in_group a g ≡ true
          → Some (λ (r : ℕ × Group). FreedAt o a g r.0 r.1)
              (free_block o (a - g.base) g >>= λ g'. some (0, g')))
        s.groups (λ g (w, (k, c)). free_block-FreedAt o a s.groups g l d w k c)
        (All-both Valid
          (λ g. Holds o a (extent g) × ((p : ℕ) → cover g p ≤ free_at s.groups (g.base + p)))
          s.groups v.0
          (All-both (λ g. Holds o a (extent g))
            (λ g. (p : ℕ) → cover g p ≤ free_at s.groups (g.base + p)) s.groups hs cs)) in
    let (r, (e', q)) =
      update_first-Reached (in_group a) (λ g. free_block o (a - g.base) g >>= λ g'. some (0, g'))
        (FreedAt o a) s.groups ts in
    rw e' (finish o a s r v (xs, (b, (n, (ys, (e, (h, p)))))) q)
