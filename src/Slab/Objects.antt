-- ===== src/Slab/Objects.antt =====
-- kernel/mm/slab.c: the objects of the slabs, in bytes of memory, and the growth of an allocator.
-- An allocator, a slab and an object are given by their addresses; 0 is NULL. `none` is a panic.
use abmp.Common.{
  ℕ, zero, suc, ◌+◌, ◌-◌, ◌*◌, ◌/◌, ◌^◌, Bool, true, false, not, ◌&&◌, ltb, leb, Option, none, some,
  List, [], ◌∷◌, ◌==◌, if◌then◌else◌, ◌>>=◌, ◌>>◌, kassert,
}
use abmp.Sched.{update}
use abmp.Page.{Pages, page_alloc_n, page_free_n}

pub record Slab : Type 0 where
  pub inuse : ℕ
  pub free : ℕ
  pub addr : ℕ

-- The word is `sb_next` of a free object, else `sb_slab`.
pub record Bufctl : Type 0 where
  pub word : ℕ
  pub is_free : Bool

-- The list of the slabs is that of `s_next`.
pub record Allocator : Type 0 where
  pub objsize : ℕ
  pub order : ℕ
  pub nobjs : ℕ
  pub slabs : List ℕ

-- The bufctl of an object is at the object's address, its red zones are `intact` or overwritten.
pub record Heap : Type 0 where
  pub allocators : List ℕ
  pub allocator : ℕ → Allocator
  pub slab : ℕ → Slab
  pub bufctl : ℕ → Bufctl
  pub intact : ℕ → Bool
  pub pages : Pages

abbrev pub set_slabs : ℕ → List ℕ → Heap → Heap
set_slabs c xs h = record h {
  allocator = update h.allocator c (record (h.allocator c) { slabs = xs });
}

-- `page_free_n` of a slab's pages, each of 4096 bytes.
abbrev pub free_slab : ℕ → ℕ → Heap → Option Heap
free_slab c s h = page_free_n ((h.slab s).addr / 4096) (2 ^ (h.allocator c).order) h.pages >>= λ p.
    some (record h { pages = p })

-- The walk over the slabs of an allocator, with the number of pages freed so far; the slabs that stay.
-- It ends early where the target is met.
unfoldable pub reclaim_slabs : ℕ → ℕ → List ℕ → ℕ → Heap → Option ((Bool × ℕ) × (List ℕ × Heap))
reclaim_slabs target c [] freed h = some ((false, freed), ([], h))
reclaim_slabs target c (s ∷ xs) freed h = do
  (n, h₁) ← elim ((h.slab s).inuse == 0) [
    | true ↦ free_slab c s h >>= λ h'. some (freed + 2 ^ (h.allocator c).order, h')
    | false ↦ some (freed, h)
  ]
  elim (ltb 0 target && leb target n) [
    | true ↦ some ((true, n), (if (h.slab s).inuse == 0 then xs else s ∷ xs, h₁))
    | false ↦ reclaim_slabs target c xs n h₁ >>= λ (m, (ys, h₂)).
        some (m, (if (h.slab s).inuse == 0 then ys else s ∷ ys, h₂))
  ]

unfoldable pub reclaim_from : ℕ → List ℕ → ℕ → Heap → Option (ℕ × Heap)
reclaim_from target [] freed h = some (freed, h)
reclaim_from target (c ∷ cs) freed h =
    reclaim_slabs target c (h.allocator c).slabs freed h >>= λ ((met, n), (ys, h')). elim met [
      | true ↦ some (n, set_slabs c ys h')
      | false ↦ reclaim_from target cs n (set_slabs c ys h')
    ]

-- The target is not negative.
unfoldable pub slab_allocators_reclaim : ℕ → Heap → Option (ℕ × Heap)
slab_allocators_reclaim target h = reclaim_from target h.allocators 0 h

-- `k` bufctls from the object `obj` on, each followed by the next object's; the object after them.
unfoldable pub link_objs : ℕ → ℕ → ℕ → (ℕ → Bufctl) → ℕ × (ℕ → Bufctl)
link_objs zero size obj b = (obj, b)
link_objs (suc k) size obj b =
    link_objs k size (obj + (size + 8))
      (update b obj (record { word = obj + (size + 8); is_free = true }))

unfoldable pub set_redzones : ℕ → ℕ → ℕ → (ℕ → Bool) → ℕ → Bool
set_redzones zero size obj f = f
set_redzones (suc k) size obj f = set_redzones k size (obj + (size + 8)) (update f obj true)

-- The pages at the address `addr` made a slab, the first of its allocator.
unfoldable pub add_slab : ℕ → ℕ → Heap → Heap
add_slab c addr h =
    let a = h.allocator c in
    let r = link_objs (a.nobjs - 1) a.objsize addr h.bufctl in
    let s = r.0 + (a.objsize + 8) in
    record (set_slabs c (s ∷ a.slabs) h) {
      slab = update h.slab s (record { inuse = 0; free = addr; addr = addr });
      bufctl = update r.1 r.0 (record { word = 0; is_free = true });
      intact = set_redzones a.nobjs a.objsize addr h.intact;
    }

-- Where there are no pages, `page_alloc_n` has called `slab_allocators_reclaim(0)` before it returns.
unfoldable pub slab_allocator_grow : ℕ → Heap → Option (Bool × Heap)
slab_allocator_grow c h = page_alloc_n (λ p. p) (2 ^ (h.allocator c).order) h.pages >>= λ (r, p).
    elim r [
      | none ↦ slab_allocators_reclaim 0 h >>= λ r. some (false, r.1)
      | some page ↦ some (
          if page == 0
          then (false, record h { pages = p })
          else (true, add_slab c (page * 4096) (record h { pages = p })))
    ]

-- The first slab that is not full.
abbrev pub open_slab : ℕ → (ℕ → Slab) → List ℕ → Option ℕ
open_slab n slab [] = none
open_slab n slab (s ∷ xs) =
    let rest = open_slab n slab xs in if (slab s).inuse == n then rest else some s

-- The first free object of a slab taken; its red zones are checked, and the address is past the first.
unfoldable pub take_obj : ℕ → Heap → Option (ℕ × Heap)
take_obj s h =
    let obj = (h.slab s).free in
    kassert (h.intact obj)
    >> some (
      obj + 4,
      record h {
        slab =
            update h.slab s
              (record (h.slab s) { inuse = suc (h.slab s).inuse; free = (h.bufctl obj).word });
        bufctl = update h.bufctl obj (record { word = s; is_free = false });
      },
    )

-- The loop of `slab_obj_alloc`, with `k` rounds at most; the object is NULL where no pages are left.
unfoldable pub alloc_rounds : ℕ → ℕ → Heap → Option (Option ℕ × Heap)
alloc_rounds zero c h = none
alloc_rounds (suc k) c h =
    let n = (h.allocator c).nobjs in
    let grown = slab_allocator_grow c h >>= λ (done, h'). elim done [
      | true ↦ alloc_rounds k c h'
      | false ↦ some (none, h')
    ] in
    elim (open_slab n h.slab (h.allocator c).slabs) [
      | some s ↦ elim (ltb (h.slab s).inuse n) [
        | true ↦ take_obj s h >>= λ r. some (some r.0, r.1)
        | false ↦ grown
      ]
      | none ↦ grown
    ]

unfoldable pub slab_obj_alloc : ℕ → Heap → Option (Option ℕ × Heap)
slab_obj_alloc c h = alloc_rounds 2 c h

-- `s_inuse` counts the object, so it is at least 1.
unfoldable pub slab_obj_free : ℕ → Heap → Option Heap
slab_obj_free addr h =
    let obj = addr - 4 in
    let s = (h.bufctl obj).word in
    do
      kassert (h.intact obj)
      kassert (not (h.bufctl obj).is_free)
      some (record h {
        slab = update h.slab s (record (h.slab s) { inuse = (h.slab s).inuse - 1; free = obj });
        bufctl = update h.bufctl obj (record { word = (h.slab s).free; is_free = true });
      })
