-- ===== src/Slab/Reclaim.antt =====
-- kernel/mm/slab.c: `slab_allocators_reclaim` gives back the pages of the slabs without objects.
use abmp.Common.{
  ℕ, zero, suc, ◌+◌, ◌/◌, ◌^◌, ◌≤◌, ◌<◌, ◌≡◌, refl, ap, sym, subst, inl, inr, Bool, false, ◌==◌,
  some, if◌then◌else◌, List, [], ◌∷◌, Bool-cases, arith, ◌∙◌, All, map,
}
use abmp.Page.{Pages, order_from, page_free_n}
use abmp.Page.Sums.{block, total}
use abmp.Page.Valid.{Some}
use abmp.Page.Walk.{free_at}
use abmp.Page.Count.{AllValid, extent, Owned}
use abmp.Page.Release.{Freed, page_free_order-Freed}
use abmp.Slab.Objects.{Slab, Heap, reclaim_slabs, free_slab}

-- The first pages of slabs, of those without objects, and the slabs with objects.
abbrev pub starts : (ℕ → Slab) → List ℕ → List ℕ
starts slab [] = []
starts slab (s ∷ xs) = ((slab s).addr / 4096) ∷ starts slab xs

abbrev pub empty_starts : (ℕ → Slab) → List ℕ → List ℕ
empty_starts slab [] = []
empty_starts slab (s ∷ xs) =
    let rest = empty_starts slab xs in
    if (slab s).inuse == 0 then ((slab s).addr / 4096) ∷ rest else rest

abbrev pub used : (ℕ → Slab) → List ℕ → List ℕ
used slab [] = []
used slab (s ∷ xs) = let rest = used slab xs in if (slab s).inuse == 0 then rest else s ∷ rest

-- The pages of the slabs are blocks of groups, apart from each other and from the free pages.
abbrev pub OwnPages : ℕ → (ℕ → Slab) → Pages → List ℕ → Type 0
OwnPages o slab s xs =
    All (λ a. Owned o a (map extent s.groups)) (starts slab xs)
    × ((p : ℕ) → free_at s.groups p + total (block (2 ^ o) p) (starts slab xs) ≤ 1)

-- The slabs with objects stay, in their order; the pages of the others are free, and counted.
abbrev pub Reclaimed : ℕ → List ℕ → ℕ → Heap → (Bool × ℕ) × (List ℕ × Heap) → Type 0
Reclaimed o xs freed h ((met, n), (ys, h')) =
    (met ≡ false)
    × ((ys ≡ used h.slab xs)
        × ((h' ≡ record h { pages = h'.pages })
            × (AllValid h'.pages
                × ((map extent h'.pages.groups ≡ map extent h.pages.groups)
                    × ((n + h.pages.freecount ≡ freed + h'.pages.freecount)
                        × ((p : ℕ)
                            → free_at h'.pages.groups p
                              ≡ free_at h.pages.groups p
                                + total (block (2 ^ o) p) (empty_starts h.slab xs)))))))

order_from_pow : (o : ℕ) → o < 8 → order_from 8 0 (2 ^ o) ≡ some o
unfolding order_from
order_from_pow zero l = refl
order_from_pow (suc zero) l = refl
order_from_pow (suc (suc zero)) l = refl
order_from_pow (suc (suc (suc zero))) l = refl
order_from_pow (suc (suc (suc (suc zero)))) l = refl
order_from_pow (suc (suc (suc (suc (suc zero))))) l = refl
order_from_pow (suc (suc (suc (suc (suc (suc zero)))))) l = refl
order_from_pow (suc (suc (suc (suc (suc (suc (suc zero))))))) l = refl
order_from_pow (suc (suc (suc (suc (suc (suc (suc (suc o)))))))) l = absurd (omega arith)

-- One slab's pages given back.
free_slab-Freed :
    (c s o : ℕ) (xs : List ℕ) (h : Heap)
    → (h.allocator c).order ≡ o
    → o < 8
    → AllValid h.pages
    → OwnPages o h.slab h.pages (s ∷ xs)
    → (t : Pages) × ((free_slab c s h ≡ some (record h { pages = t }))
        × (Freed o ((h.slab s).addr / 4096) h.pages t × OwnPages o h.slab t xs))
unfolding page_free_n
free_slab-Freed c s o xs h e l v (w, d) =
    let a = (h.slab s).addr / 4096 in
    let (t, (f, (v', (x, (n, k))))) =
      page_free_order-Freed o a h.pages l v w.0 (λ p. omega (arith, d p)) in
    (
      t,
      (
        rw (e, order_from_pow o l, f) refl,
        (
          (v', (x, (n, k))),
          (
            subst (λ es. All (λ b. Owned o b es) (starts h.slab xs)) (sym x) w.1,
            (λ p. omega (arith, d p, k p)),
          ),
        ),
      ),
    )

pub reclaim_slabs-Reclaimed :
    (c o freed : ℕ) (xs : List ℕ) (h : Heap)
    → (h.allocator c).order ≡ o
    → o < 8
    → AllValid h.pages
    → OwnPages o h.slab h.pages xs
    → Some (Reclaimed o xs freed h) (reclaim_slabs 0 c xs freed h)
unfolding reclaim_slabs
reclaim_slabs-Reclaimed c o freed [] h e l v w = (
  ((false, freed), ([], h)),
  (refl, (refl, (refl, (refl, (v, (refl, (refl, (λ p. omega arith)))))))),
)
reclaim_slabs-Reclaimed c o freed (s ∷ xs) h e l v w = elim (Bool-cases ((h.slab s).inuse == 0)) [
  | inl z ↦
      let (t, (f, ((v', (x, (n, k))), w'))) = free_slab-Freed c s o xs h e l v w in
      let h₁ : Heap = record h { pages = t } in
      let (((met, m), (ys, h')), (q, (b, (y, (u, (v'', (x', (n', k')))))))) =
        reclaim_slabs-Reclaimed c o (freed + 2 ^ o) xs h₁ e l v' w' in
      rw (z, f, e, q, b)
        (
          ((false, m), (ys, h')),
          (
            refl,
            (
              refl,
              (y, (u, (v'', (x' ∙ x, (omega (arith, n, n'), (λ p. omega (arith, k p, k' p))))))),
            ),
          ),
        )
  | inr z ↦
      let (((met, m), (ys, h')), (q, (b, (y, (u, (v'', (x', (n', k')))))))) =
        reclaim_slabs-Reclaimed c o freed xs h e l v (w.0.1, (λ p. omega (arith, w.1 p))) in
      rw (z, q, b)
        (
          ((false, m), (s ∷ ys, h')),
          (refl, (refl, (ap (λ l. s ∷ l) y, (u, (v'', (x', (n', k'))))))),
        )
]
