-- ===== src/Slab/Create.antt =====
-- kernel/mm/slab.c: new allocators.
use abmp.Common.{ℕ, ◌+◌, Option, none, some, [], ◌∷◌, ◌>>=◌}
use abmp.Sched.{update}
use abmp.Slab.{calc_slab_size}
use abmp.Slab.Objects.{Heap, slab_obj_alloc}

-- The allocator at the address `c`, for objects of `size` bytes and two red zones.
unfoldable pub allocator_init : ℕ → ℕ → Heap → Option Heap
allocator_init c size h = calc_slab_size (size + 8) >>= λ (o, n). some (record h {
  allocators = c ∷ h.allocators;
  allocator =
      update h.allocator c (record { objsize = size + 8; order = o; nobjs = n; slabs = [] });
})

-- `first` is the address of `slab_allocator_allocator`.
unfoldable pub slab_allocator_create : ℕ → ℕ → Heap → Option (Option ℕ × Heap)
slab_allocator_create first size h = slab_obj_alloc first h >>= λ (r, h'). elim r [
  | none ↦ some (none, h')
  | some c ↦ allocator_init c size h' >>= λ h''. some (some c, h'')
]
