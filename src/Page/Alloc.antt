-- ===== src/Page/Alloc.antt =====
-- kernel/mm/page.c: `_page_alloc_order`.
use abmp.Common.{
  ℕ, zero, suc, ◌+◌, ◌-◌, ◌^◌, ◌≤◌, ◌<◌, ◌≡◌, refl, ap, sym, subst, true, false, List, ◌∷◌, ◌++◌,
  map, arith, All, ◌∙◌, Option, some, none, u32,
}
use abmp.Page.{Pages, has_block, take_from, search, page_alloc_order}
use abmp.Page.Buddy.{Group}
use abmp.Page.Sums.{block}
use abmp.Page.Valid.{Some, Valid, Placed, two_pow_pos}
use abmp.Page.Steps.{Moves, no_pages}
use abmp.Page.Take.{Taken, split_down-Same, take_block-Taken}
use abmp.Page.Walk.{Reached, update_first-Reached, free_at, free_at-replaced}
use abmp.Page.Count.{
  upto_inside, upto_zero, free_total, free_total-replaced, extent, free_total-span, AllValid,
  All-map, replaced-AllValid, Owned, middle-Owned, block-shift,
}

-- The block at the address `a` taken from a group.
abbrev pub TakenAt : ℕ → Group → ℕ → Group → Type 0
TakenAt o g a g' = (i : ℕ) × ((a ≡ g.base + i) × Taken o g (i, g'))

Taken-Same :
    (o : ℕ) (g g' g'' : Group) (i : ℕ)
    → Moves no_pages no_pages g g'
    → Taken o g' (i, g'')
    → Taken o g (i, g'')
Taken-Same o g g' g'' i (b, (n, c)) (p, (w, (b', (n', c')))) =
    (subst (λ n. Placed n o i) n p, (w, (b' ∙ b, (n' ∙ n, (λ p. omega (arith, c p, c' p))))))

take_from-TakenAt :
    (k o : ℕ) (g : Group)
    → k + o < 8
    → Valid g
    → has_block (k + o) g ≡ true
    → Some (λ r. TakenAt o g r.0 r.1) (take_from k o g)
unfolding take_from
take_from-TakenAt k o g l v h =
    let (g', (e, (s, n))) = split_down-Same k o g l v (ground arith) in
    let ((i, g''), (e', (p, (w, m)))) = take_block-Taken o g' (omega arith) s.0 n in
    rw (e, e') ((g.base + i, g''), (refl, (i, (refl, Taken-Same o g g' g'' i s.1 (p, (w, m))))))

-- A search ends with a block, or where no group has one of the order or above.
abbrev pub Searched : ℕ → ℕ → ℕ → List Group → Option ℕ × List Group → Type 0
Searched n k o gs (none, gs') = (j : ℕ) → j < n → All (λ g. has_block (j + k + o) g ≡ false) gs
Searched n k o gs (some a, gs') =
    (xs : List Group) × ((g : Group) × ((g' : Group) × ((ys : List Group) × ((gs ≡ xs ++ (g ∷ ys))
            × ((gs' ≡ xs ++ (g' ∷ ys)) × TakenAt o g a g')))))

none_below :
    (n k o : ℕ) (gs : List Group)
    → All (λ g. has_block (k + o) g ≡ false) gs
    → ((j : ℕ) → j < n → All (λ g. has_block (j + suc k + o) g ≡ false) gs)
    → (j : ℕ) → j < suc n
    → All (λ g. has_block (j + k + o) g ≡ false) gs
none_below n k o gs h q zero l = subst (λ m. All (λ g. has_block m g ≡ false) gs) (omega arith) h
none_below n k o gs h q (suc j) l =
    subst (λ m. All (λ g. has_block m g ≡ false) gs) (omega arith) (q j (omega arith))

-- The orders from `k + 1 + o` up, after the order `k + o`.
Searched-later :
    (n k o : ℕ) (gs : List Group) (r : Option ℕ × List Group)
    → All (λ g. has_block (k + o) g ≡ false) gs
    → Searched n (suc k) o gs r
    → Searched (suc n) k o gs r
Searched-later n k o gs (some a, gs') h q = q
Searched-later n k o gs (none, gs') h q = none_below n k o gs h q

search_next :
    (n k o : ℕ) (gs : List Group) (r : Option ℕ × List Group)
    → Reached (has_block (k + o)) (TakenAt o) gs r
    → Some (Searched n (suc k) o gs) (search n (suc k) o gs)
    → Some
        (Searched (suc n) k o gs)
        (elim r.0 [ some a ↦ some (some a, r.1) | none ↦ search n (suc k) o gs ])
search_next n k o gs (some a, gs') (xs, (g, (g', (ys, (e, (e', (_, t))))))) h =
    ((some a, gs'), (refl, (xs, (g, (g', (ys, (e, (e', t))))))))
search_next n k o gs (none, gs') (_, q) (r, (e, h)) = (r, (e, Searched-later n k o gs r q h))

pub search-Searched :
    (n k o : ℕ) (gs : List Group)
    → n + k + o ≤ 8
    → All Valid gs
    → Some (Searched n k o gs) (search n k o gs)
unfolding search
search-Searched zero k o gs l h = ((none, gs), (refl, (λ j z. absurd (omega arith))))
search-Searched (suc n) k o gs l h =
    let t =
      All-map Valid
        (λ g. has_block (k + o) g ≡ true → Some (λ r. TakenAt o g r.0 r.1) (take_from k o g)) gs
        (λ g v e. take_from-TakenAt k o g (omega arith) v e) h in
    let (r, (e, q)) = update_first-Reached (has_block (k + o)) (take_from k o) (TakenAt o) gs t in
    rw e (search_next n k o gs r q (search-Searched n (suc k) o gs (omega arith) h))

-- The state after a block is taken at the address `a`.
abbrev pub After : ℕ → ℕ → Pages → Pages → Type 0
After o a s s' =
    AllValid s'
    × ((map extent s'.groups ≡ map extent s.groups)
        × ((s'.freecount + 2 ^ o ≡ s.freecount)
            × ((a' : ℕ) → free_at s'.groups a' + block (2 ^ o) a' a ≡ free_at s.groups a')))

-- With an address: the block was free and is taken. With NULL: no group had a block to give.
abbrev pub Allocated : (Pages → Pages) → ℕ → Pages → Option ℕ × Pages → Type 0
Allocated reclaim o s (some a, s') = Owned o a (map extent s.groups) × After o a s s'
Allocated reclaim o s (none, s') =
    (s' ≡ reclaim s) × ((k : ℕ) → o ≤ k → k < 8 → All (λ g. has_block k g ≡ false) s.groups)

TakenAt-After :
    (o a : ℕ) (s : Pages) (xs ys : List Group) (g g' : Group)
    → AllValid s
    → s.groups ≡ xs ++ (g ∷ ys)
    → TakenAt o g a g'
    → Owned o a (map extent s.groups)
      × After o a s (record s {
        groups = xs ++ (g' ∷ ys);
        freecount = u32 (s.freecount + (4294967296 - 2 ^ o));
      })
TakenAt-After o a s xs ys g g' v e (i, (f, (p, (w, m)))) =
    let gs' = xs ++ (g' ∷ ys) in
    let t = free_total-replaced xs ys g g' no_pages (λ p. block (2 ^ o) p i) m in
    let u = upto_inside g.npages (2 ^ o) i (two_pow_pos o) p.1 in
    let z = upto_zero g.npages in
    let n : free_total gs' + 2 ^ o ≡ s.freecount =
      omega (arith, t, u, z, v.1.1.1, ap free_total e) in
    let l = free_total-span s.groups v.0 in
    let c : u32 (s.freecount + (4294967296 - 2 ^ o)) ≡ free_total gs' =
      omega (arith, n, l, v.1.1.0, v.1.1.1) in
    let (v', x) =
      replaced-AllValid s xs ys g g' (u32 (s.freecount + (4294967296 - 2 ^ o))) v e w m.0 m.1.0 c in
    (
      rw f (middle-Owned o i s.groups xs ys g e p),
      (
        v',
        (
          x,
          (
            omega (arith, c, n),
            (λ a'.
                let r =
                  free_at-replaced xs ys g g' no_pages (λ p. block (2 ^ o) p i) a' m.0 m.1.1 in
                let b = ap (λ z. block (2 ^ o) a' z) f ∙ block-shift (2 ^ o) g.base i a' in
                ground (arith, r, b, ap (λ gs. free_at gs a') e)),
          ),
        ),
      ),
    )

finish :
    (reclaim : Pages → Pages) (o : ℕ) (s : Pages)
    → o < 8
    → (r : Option ℕ × List Group) → AllValid s
    → Searched (8 - o) 0 o s.groups r
    → Some (Allocated reclaim o s) (elim r.0 [
      | some a ↦
          some (
            some a,
            record s { groups = r.1; freecount = u32 (s.freecount + (4294967296 - 2 ^ o)) },
          )
      | none ↦ some (none, reclaim s)
    ])
finish reclaim o s l (none, gs') v q = (
  (none, reclaim s),
  (
    refl,
    (
      refl,
      (λ k h m.
          subst (λ j. All (λ g. has_block j g ≡ false) s.groups) (omega arith)
            (q (k - o) (omega arith))),
    ),
  ),
)
finish reclaim o s l (some a, gs') v (xs, (g, (g', (ys, (e, (e', t)))))) =
    let x = TakenAt-After o a s xs ys g g' v e t in
    let c = u32 (s.freecount + (4294967296 - 2 ^ o)) in
    (
      (some a, record s { groups = gs'; freecount = c }),
      (
        refl,
        subst
            (λ l.
              Owned o a (map extent s.groups)
              × After o a s (record s { groups = l; freecount = c }))
            (sym e') x,
      ),
    )

pub page_alloc_order-Allocated :
    (reclaim : Pages → Pages) (o : ℕ) (s : Pages)
    → o < 8
    → AllValid s
    → Some (Allocated reclaim o s) (page_alloc_order reclaim o s)
unfolding page_alloc_order
page_alloc_order-Allocated reclaim o s l v =
    let (r, (e, q)) = search-Searched (8 - o) 0 o s.groups (omega arith) v.0 in
    rw e (finish reclaim o s l r v q)
