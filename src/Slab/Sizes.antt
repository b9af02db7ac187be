-- ===== src/Slab/Sizes.antt =====
-- kernel/mm/slab.c: memory from `kmalloc`, given back with `kfree`.
use abmp.Common.{
  ℕ, zero, suc, ◌+◌, ◌-◌, ◌^◌, ◌≤◌, ◌<◌, ◌≡◌, refl, inl, inr, true, ltb, leb, some, u32, List, ◌∷◌,
  Bool-cases, arith,
}
use abmp.Sched.{update}
use abmp.Slab.Objects.{open_slab}
use abmp.Slab.Kmalloc.{Kernel, kmalloc_order, kmalloc, kfree}
use abmp.Slab.Chain.{SlabFree, Alike, update_self, obj_alloc-Given}

-- The least order from 6 up whose objects hold `size` bytes.
abbrev pub LeastSize : ℕ → ℕ → Type 0
LeastSize size o = (6 ≤ o) × ((size ≤ 2 ^ o) × ((j : ℕ) → 6 ≤ j → j < o → 2 ^ j < size))

kmalloc_order-LeastSize :
    (k o size : ℕ)
    → suc k + o ≡ 19
    → 6 ≤ o
    → size ≤ 262144
    → ((j : ℕ) → 6 ≤ j → j < o → 2 ^ j < size)
    → (m : ℕ) × ((kmalloc_order (suc k) o size ≡ some m) × LeastSize size m)
unfolding kmalloc_order
kmalloc_order-LeastSize zero o size h g l d =
    let e : o ≡ 18 = omega arith in
    let e' : leb size (2 ^ o) ≡ true = rw e (ground arith) in
    rw e' (o, (refl, (g, (ground arith, d))))
kmalloc_order-LeastSize (suc k) o size h g l d = elim (Bool-cases (leb size (2 ^ o))) [
  | inl e ↦ rw e (o, (refl, (g, (ground arith, d))))
  | inr e ↦
      let d' : (j : ℕ) → 6 ≤ j → j < suc o → 2 ^ j < size = λ j v w. elim (Bool-cases (ltb j o)) [
        | inl f ↦ d j v (ground arith)
        | inr f ↦ let z : j ≡ o = ground arith in rw z (ground arith)
      ] in
      rw e (kmalloc_order-LeastSize k (suc o) size (omega arith) (omega arith) l d')
]

LeastSize-unique : (size m n : ℕ) → LeastSize size m → LeastSize size n → m ≡ n
LeastSize-unique size m n (a, (b, c)) (a', (b', c')) = elim (Bool-cases (ltb m n)) [
  | inl e ↦ absurd (omega (arith, b, c' m a (ground arith)))
  | inr e ↦ elim (Bool-cases (ltb n m)) [
    | inl f ↦ absurd (omega (arith, b', c n a' (ground arith)))
    | inr f ↦ ground arith
  ]
]

kmalloc_order_lem :
    (size m : ℕ)
    → size ≤ 262140
    → LeastSize (size + 4) m
    → kmalloc_order 13 6 (u32 (size + 4)) ≡ some m
kmalloc_order_lem size m h w =
    let (n, (e, v)) =
      kmalloc_order-LeastSize 12 6 (size + 4) refl (omega arith) (omega arith)
        (λ j p q. absurd (omega arith)) in
    let u : u32 (size + 4) ≡ size + 4 = omega arith in rw (u, LeastSize-unique (size + 4) m n w v) e

-- For at most 262140 bytes, let `m` be the least order that holds them and a word more. Where the first
-- slab of that order's allocator that is not full has a chain of free objects with their red zones,
-- and its count is right, `kmalloc` gives the head of the chain, past the red zone and the word, which
-- names the allocator; `kfree` of that address then gives the old heap.
pub kfree-kmalloc :
    (size m s o : ℕ) (os : List ℕ) (k : Kernel)
    → size ≤ 262140
    → LeastSize (size + 4) m
    → open_slab
        (k.heap.allocator (k.kmalloc_allocators (m - 6))).nobjs
        k.heap.slab
        (k.heap.allocator (k.kmalloc_allocators (m - 6))).slabs
      ≡ some s
    → SlabFree (k.heap.allocator (k.kmalloc_allocators (m - 6))).nobjs k.heap s (o ∷ os)
    → (k' : Kernel) × ((kmalloc size k ≡ some (some (o + 8), k'))
        × ((k'.owner (o + 4) ≡ k.kmalloc_allocators (m - 6))
            × ((k'' : Kernel) × ((kfree (o + 8) k' ≡ some k'') × Alike k.heap k''.heap))))
unfolding kmalloc kfree
kfree-kmalloc size m s o os k h w f g =
    let c = k.kmalloc_allocators (m - 6) in
    let (h', (e, (_, (h'', (e', a))))) = obj_alloc-Given c s o os k.heap f g in
    let z : o + 4 + 4 ≡ o + 8 = omega arith in
    let z' : o + 8 - 4 ≡ o + 4 = omega arith in
    let k' : Kernel = record k { heap = h'; owner = update k.owner (o + 4) c } in
    (
      k',
      (
        rw (kmalloc_order_lem size m h w, e, z) refl,
        (update_self k.owner (o + 4) c, (record k' { heap = h'' }, (rw (z', e') refl, a))),
      ),
    )
