-- ===== src/Page/Blocks.antt =====
-- kernel/mm/page.c: `page_alloc_n` and `page_free_n`.
use abmp.Common.{
  ℕ, zero, suc, ◌+◌, ◌^◌, ◌≤◌, ◌<◌, ◌≡◌, refl, sym, subst, inl, inr, ◌⊎◌, true, false, leb, ltb,
  ◌&&◌, map, Bool-cases, arith, some, none, ◌>>=◌,
}
use native.Mathlib.Nat.{pow-le-pow_right}
use abmp.Page.{Pages, is_enough, order_from, page_alloc_order, page_alloc_n, page_free_n}
use abmp.Page.Sums.{block}
use abmp.Page.Valid.{Some}
use abmp.Page.Walk.{free_at}
use abmp.Page.Count.{AllValid, extent, free_at_most, Owned}
use abmp.Page.Alloc.{Allocated, After, page_alloc_order-Allocated}
use abmp.Page.Release.{page_free_order-Freed}

-- The smallest order whose blocks have `n` pages.
abbrev pub Least : ℕ → ℕ → Type 0
Least n o = (o < 8) × ((n ≤ 2 ^ o) × ((j : ℕ) → j < o → 2 ^ j < n))

pub order_from-Least :
    (k o n : ℕ)
    → suc k + o ≡ 8
    → n ≤ 128
    → ((j : ℕ) → j < o → 2 ^ j < n)
    → Some (Least n) (order_from (suc k) o n)
unfolding order_from
order_from-Least zero o n h l d =
    let e : o ≡ 7 = omega arith in
    let e' : is_enough o n ≡ true = rw e (ground arith) in
    rw e' (o, (refl, (omega arith, (ground arith, d))))
order_from-Least (suc k) o n h l d = elim (Bool-cases (is_enough o n)) [
  | inl e ↦ rw e (o, (refl, (omega arith, (ground arith, d))))
  | inr e ↦
      let d' : (j : ℕ) → j < suc o → 2 ^ j < n = λ j w. elim (Bool-cases (ltb j o)) [
        | inl f ↦ d j (ground arith)
        | inr f ↦ let z : j ≡ o = ground arith in rw z (ground arith)
      ] in
      rw e (order_from-Least k (suc o) n (omega arith) l d')
]

order_from-none : (k o n : ℕ) → k + o ≡ 8 → 128 < n → n < 2147483648 → order_from k o n ≡ none
unfolding order_from
order_from-none zero o n h l m = refl
order_from-none (suc k) o n h l m =
    let p : 2 ^ o ≤ 2 ^ 7 = pow-le-pow_right {n = 2} (omega arith) {j = 7} (omega arith) in
    let e : is_enough o n ≡ false = ground arith in
    rw e (order_from-none k (suc o) n (omega arith) l m)

-- In a valid state, `page_alloc_n` of at most 128 pages fails no check. It goes to the least order
-- that holds them. With an address: a block of that order, aligned inside a group, was free and is
-- taken; no other page changes, the free count falls by the block's size, the state is valid. With NULL:
-- no group has a free block of that order or a larger one, and the state is what `reclaim` made of it.
pub page_alloc_n-Allocated :
    (reclaim : Pages → Pages) (n : ℕ) (s : Pages)
    → n ≤ 128
    → AllValid s
    → (o : ℕ) × (Least n o × Some (Allocated reclaim o s) (page_alloc_n reclaim n s))
unfolding page_alloc_n
page_alloc_n-Allocated reclaim n s l v =
    let (o, (e, w)) = order_from-Least 7 0 n refl l (λ j h. absurd (omega arith)) in
    (o, (w, rw e (page_alloc_order-Allocated reclaim o s w.0 v)))

-- From 129 pages on both calls panic, up to where the count is negative as an `int`.
pub page_alloc_n_panic :
    (reclaim : Pages → Pages) (a n : ℕ) (s : Pages)
    → 128 < n
    → n < 2147483648
    → (page_alloc_n reclaim n s ≡ none) × (page_free_n a n s ≡ none)
unfolding page_alloc_n page_free_n
page_alloc_n_panic reclaim a n s l m =
    let e = order_from-none 8 0 n refl l m in (rw e refl, rw e refl)

-- What an allocation that gives an address has done.
alloc_n_some :
    (reclaim : Pages → Pages) (n a : ℕ) (s s' : Pages)
    → n ≤ 128
    → AllValid s
    → page_alloc_n reclaim n s ≡ some (some a, s')
    → (o : ℕ) × ((order_from 8 0 n ≡ some o)
        × (Least n o × (Owned o a (map extent s.groups) × After o a s s')))
unfolding page_alloc_n
alloc_n_some reclaim n a s s' l v h =
    let (o, (e, w)) = order_from-Least 7 0 n refl l (λ j k. absurd (omega arith)) in
    let (r, (f, q)) = page_alloc_order-Allocated reclaim o s w.0 v in
    let h' : page_alloc_order reclaim o s ≡ some (some a, s') =
      subst (λ m. (m >>= λ k. page_alloc_order reclaim k s) ≡ some (some a, s')) e h in
    let z : r ≡ (some a, s') = cc in (o, (e, (w, subst (Allocated reclaim o s) z q)))

-- In a valid state, after `page_alloc_n` of at most 128 pages gave an address, `page_free_n` of that
-- address and number succeeds: the same pages are free as before the two calls, the count of
-- free pages is the same, and the state is valid.
pub page_free_n-alloc_n :
    (reclaim : Pages → Pages) (n a : ℕ) (s s' : Pages)
    → n ≤ 128
    → AllValid s
    → page_alloc_n reclaim n s ≡ some (some a, s')
    → Some
        (λ t.
          AllValid t
          × ((t.freecount ≡ s.freecount) × ((p : ℕ) → free_at t.groups p ≡ free_at s.groups p)))
        (page_free_n a n s')
unfolding page_free_n
page_free_n-alloc_n reclaim n a s s' l v h =
    let (o, (e, (w, (x, (v', (b, (c, k))))))) = alloc_n_some reclaim n a s s' l v h in
    let (t, (y, (v'', (_, (c', k'))))) =
      page_free_order-Freed o a s' w.0 v' (subst (Owned o a) (sym b) x)
        (λ p. omega (arith, k p, free_at_most s.groups p v.0 v.1.0)) in
    rw e (t, (y, (v'', (omega (arith, c, c'), (λ p. omega (arith, k p, k' p))))))

inside_block : (o n a p : ℕ) → n ≤ 2 ^ o → a ≤ p → p < a + n → block (2 ^ o) p a ≡ 1
unfolding block
inside_block o n a p h k l = ground arith

-- In a valid state, let `page_alloc_n` give two addresses one after the other, for at most 128 pages
-- each: no page of the first `m` pages is one of the second `n` pages.
pub page_alloc_n_apart :
    (reclaim : Pages → Pages) (m n a b : ℕ) (s s' s'' : Pages)
    → m ≤ 128
    → n ≤ 128
    → AllValid s
    → page_alloc_n reclaim m s ≡ some (some a, s')
    → page_alloc_n reclaim n s' ≡ some (some b, s'')
    → (p : ℕ) → a ≤ p
    → p < a + m
    → (p < b) ⊎ (b + n ≤ p)
page_alloc_n_apart reclaim m n a b s s' s'' l k v h g p x y =
    let (o, (_, (w, (_, (v', (_, (_, e))))))) = alloc_n_some reclaim m a s s' l v h in
    let (q, (_, (z, (_, (_, (_, (_, f))))))) = alloc_n_some reclaim n b s' s'' k v' g in
    let i = inside_block o m a p w.1.0 x y in
    elim (Bool-cases (leb b p && ltb p (b + n))) [
      | inl c ↦
          let j = inside_block q n b p z.1.0 (ground arith) (ground arith) in
          absurd (omega (arith, e p, f p, i, j, free_at_most s.groups p v.0 v.1.0))
      | inr c ↦ elim (Bool-cases (leb b p)) [
        | inl u ↦ inr (ground arith)
        | inr u ↦ inl (ground arith)
      ]
    ]
