-- ===== src/Slab/ReclaimAll.antt =====
-- kernel/mm/slab.c: `slab_allocators_reclaim` over all allocators.
use abmp.Common.{
  ℕ, ◌+◌, ◌^◌, ◌≤◌, ◌<◌, ◌≡◌, refl, ap, sym, subst, false, ◌==◌, Option, some, List, [], ◌∷◌, arith,
  ◌∙◌, All, map,
}
use abmp.Sched.{update}
use abmp.Page.{Pages}
use abmp.Page.Buddy.{contains}
use abmp.Page.Sums.{block, total}
use abmp.Page.Walk.{free_at}
use abmp.Page.Count.{AllValid, extent, Owned}
use abmp.Slab.Objects.{
  Slab, Allocator, Heap, set_slabs, reclaim_slabs, reclaim_from, slab_allocators_reclaim,
}
use abmp.Slab.Chain.{update_self}
use abmp.Slab.Reclaim.{starts, empty_starts, used, OwnPages, reclaim_slabs-Reclaimed}

-- How many slabs of the allocators, and how many of their slabs without objects, hold a page.
abbrev pub held : (ℕ → Slab) → (ℕ → Allocator) → List ℕ → ℕ → ℕ
held slab al [] p = 0
held slab al (c ∷ cs) p =
    total (block (2 ^ (al c).order) p) (starts slab (al c).slabs) + held slab al cs p

abbrev pub held_empty : (ℕ → Slab) → (ℕ → Allocator) → List ℕ → ℕ → ℕ
held_empty slab al [] p = 0
held_empty slab al (c ∷ cs) p =
    total (block (2 ^ (al c).order) p) (empty_starts slab (al c).slabs) + held_empty slab al cs p

-- Different allocators, whose slabs are blocks of groups.
abbrev pub AllOwned : (ℕ → Slab) → (ℕ → Allocator) → List (ℕ × ℕ) → List ℕ → Type 0
AllOwned slab al es [] = Unit
AllOwned slab al es (c ∷ cs) =
    ((al c).order < 8)
    × (All (λ a. Owned (al c).order a es) (starts slab (al c).slabs)
        × ((contains c cs ≡ false) × AllOwned slab al es cs))

-- Of every allocator the slabs with objects stay.
abbrev pub Kept : (ℕ → Slab) → (ℕ → Allocator) → (ℕ → Allocator) → List ℕ → Type 0
Kept slab al al' [] = Unit
Kept slab al al' (c ∷ cs) = ((al' c).slabs ≡ used slab (al c).slabs) × Kept slab al al' cs

abbrev emptied : ℕ → List ℕ → (ℕ → Allocator) → ℕ → Allocator
emptied c xs al = update al c (record (al c) { slabs = xs })

emptied_other :
    (c d : ℕ) (xs : List ℕ) (al : ℕ → Allocator) → (c == d) ≡ false → emptied c xs al d ≡ al d
emptied_other c d xs al h = rw h refl

held-emptied :
    (c : ℕ) (xs cs : List ℕ) (slab : ℕ → Slab) (al : ℕ → Allocator) (p : ℕ)
    → contains c cs ≡ false
    → (held slab (emptied c xs al) cs p ≡ held slab al cs p)
      × (held_empty slab (emptied c xs al) cs p ≡ held_empty slab al cs p)
held-emptied c xs [] slab al p h = (refl, refl)
held-emptied c xs (d ∷ cs) slab al p h =
    let e : (c == d) ≡ false = ground arith in
    let r = held-emptied c xs cs slab al p (ground arith) in
    rw e (omega (arith, r.0), omega (arith, r.1))

AllOwned-emptied :
    (c : ℕ) (xs cs : List ℕ) (slab : ℕ → Slab) (al : ℕ → Allocator) (es : List (ℕ × ℕ))
    → contains c cs ≡ false
    → AllOwned slab al es cs
    → AllOwned slab (emptied c xs al) es cs
AllOwned-emptied c xs [] slab al es h w = tt
AllOwned-emptied c xs (d ∷ cs) slab al es h (l, (o, (n, w))) =
    let e : (c == d) ≡ false = ground arith in
    rw e (l, (o, (n, AllOwned-emptied c xs cs slab al es (ground arith) w)))

Kept-emptied :
    (c : ℕ) (xs cs : List ℕ) (slab : ℕ → Slab) (al al' : ℕ → Allocator)
    → contains c cs ≡ false
    → Kept slab (emptied c xs al) al' cs
    → Kept slab al al' cs
Kept-emptied c xs [] slab al al' h w = tt
Kept-emptied c xs (d ∷ cs) slab al al' h w =
    let e : (c == d) ≡ false = ground arith in
    let z = emptied_other c d xs al e in
    (
      subst (λ (a : Allocator). (al' d).slabs ≡ used slab a.slabs) z w.0,
      Kept-emptied c xs cs slab al al' (ground arith) w.1,
    )

empty_starts_less :
    (s p : ℕ) (slab : ℕ → Slab) (xs : List ℕ)
    → total (block s p) (empty_starts slab xs) ≤ total (block s p) (starts slab xs)
empty_starts_less s p slab [] = omega arith
empty_starts_less s p slab (x ∷ xs) = ground (arith, empty_starts_less s p slab xs)

-- One allocator: the slabs with objects stay, and only pages change else.
slabs_step :
    (c freed : ℕ) (h : Heap)
    → (h.allocator c).order < 8
    → AllValid h.pages
    → OwnPages (h.allocator c).order h.slab h.pages (h.allocator c).slabs
    → (n : ℕ) × ((t : Pages) × ((reclaim_slabs 0 c (h.allocator c).slabs freed h
            ≡ some ((false, n), (used h.slab (h.allocator c).slabs, record h { pages = t })))
          × (AllValid t
              × ((map extent t.groups ≡ map extent h.pages.groups)
                  × ((n + h.pages.freecount ≡ freed + t.freecount)
                      × ((p : ℕ)
                          → free_at t.groups p
                            ≡ free_at h.pages.groups p
                              + total
                                  (block (2 ^ (h.allocator c).order) p)
                                  (empty_starts h.slab (h.allocator c).slabs)))))))
slabs_step c freed h l v w =
    let xs = (h.allocator c).slabs in
    let (((met, n), (ys, h')), (q, (b, (y, (u, r))))) =
      reclaim_slabs-Reclaimed c (h.allocator c).order freed xs h refl l v w in
    let e =
      ap (λ z. some ((z, n), (ys, h'))) b
      ∙ (ap (λ z. some ((false, n), (z, h'))) y
          ∙ ap (λ z. some ((false, n), (used h.slab xs, z))) u) in
    (n, (h'.pages, (q ∙ e, r)))

-- The result of a walk over allocators.
abbrev pub Walked : List ℕ → ℕ → Heap → Option (ℕ × Heap) → Type 0
Walked cs freed h r =
    (n : ℕ) × ((t : Pages) × ((al : ℕ → Allocator) × ((r
            ≡ some (n, record h { allocator = al; pages = t }))
          × (AllValid t
              × ((map extent t.groups ≡ map extent h.pages.groups)
                  × ((n + h.pages.freecount ≡ freed + t.freecount)
                      × (((p : ℕ)
                            → free_at t.groups p
                              ≡ free_at h.pages.groups p + held_empty h.slab h.allocator cs p)
                          × (Kept h.slab h.allocator al cs
                              × ((d : ℕ) → contains d cs ≡ false → al d ≡ h.allocator d)))))))))

reclaim_from-Walked :
    (cs : List ℕ) (freed : ℕ) (h : Heap)
    → AllValid h.pages
    → AllOwned h.slab h.allocator (map extent h.pages.groups) cs
    → ((p : ℕ) → free_at h.pages.groups p + held h.slab h.allocator cs p ≤ 1)
    → Walked cs freed h (reclaim_from 0 cs freed h)
unfolding reclaim_from
reclaim_from-Walked [] freed h v w d = (
  freed,
  (h.pages, (h.allocator, (refl, (v, (refl, (refl, ((λ p. omega arith), (tt, (λ e z. refl))))))))),
)
reclaim_from-Walked (c ∷ cs) freed h v (l, (o, (m, w))) d =
    let al = h.allocator in
    let xs = (al c).slabs in
    let ys = used h.slab xs in
    let (n, (t, (q, (v', (x, (k, f)))))) =
      slabs_step c freed h l v (o, (λ p. omega (arith, d p))) in
    let h₁ : Heap = set_slabs c ys (record h { pages = t }) in
    let w' =
      subst (λ es. AllOwned h.slab (emptied c ys al) es cs) (sym x)
        (AllOwned-emptied c ys cs h.slab al (map extent h.pages.groups) m w) in
    let (n', (t', (al', (q', (v'', (x', (k', (f', (g, i))))))))) =
      reclaim_from-Walked cs n h₁ v' w' (λ p. omega (
        arith,
        d p,
        f p,
        (held-emptied c ys cs h.slab al p m).0,
        empty_starts_less (2 ^ (al c).order) p h.slab xs,
      )) in
    (
      n',
      (
        t',
        (
          al',
          (
            rw q q',
            (
              v'',
              (
                x' ∙ x,
                (
                  omega (arith, k, k'),
                  (
                    (λ p. omega (arith, f p, f' p, (held-emptied c ys cs h.slab al p m).1)),
                    (
                      (
                        ap (λ (a : Allocator). a.slabs)
                            (i c m ∙ update_self al c (record (al c) { slabs = ys })),
                        Kept-emptied c ys cs h.slab al al' m g,
                      ),
                      (λ e z. i e (ground arith) ∙ emptied_other c e ys al (ground arith)),
                    ),
                  ),
                ),
              ),
            ),
          ),
        ),
      ),
    )

-- In a heap whose page allocator is valid, and whose slabs are blocks of it, of an order below 8, apart from
-- each other and from the free pages, `slab_allocators_reclaim(0)`, for which no target counts, succeeds: it frees exactly
-- the pages of the slabs without objects, returns their number, takes these slabs off the lists
-- of the allocators, keeps the others, and leaves the page allocator valid.
pub allocators_reclaim-Walked :
    (h : Heap)
    → AllValid h.pages
    → AllOwned h.slab h.allocator (map extent h.pages.groups) h.allocators
    → ((p : ℕ) → free_at h.pages.groups p + held h.slab h.allocator h.allocators p ≤ 1)
    → Walked h.allocators 0 h (slab_allocators_reclaim 0 h)
unfolding slab_allocators_reclaim
allocators_reclaim-Walked h v w d = reclaim_from-Walked h.allocators 0 h v w d
