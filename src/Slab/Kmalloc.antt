-- ===== src/Slab/Kmalloc.antt =====
-- kernel/mm/slab.c: `kmalloc` and `kfree`, with an allocator for each power of two from 64 to 262144.
use abmp.Common.{ℕ, zero, suc, ◌+◌, ◌-◌, ◌^◌, Option, none, some, leb, if◌then◌else◌, ◌>>=◌, u32}
use abmp.Sched.{update}
use abmp.Slab.Objects.{Heap, slab_obj_alloc, slab_obj_free}
use abmp.Slab.Create.{allocator_init, slab_allocator_create}

-- `kmalloc_allocators`, and the first word of each object: the allocator that it came from.
pub record Kernel : Type 0 where
  pub heap : Heap
  pub kmalloc_allocators : ℕ → ℕ
  pub owner : ℕ → ℕ

-- The first of `k` orders from `o` up whose objects hold `size` bytes.
unfoldable pub kmalloc_order : ℕ → ℕ → ℕ → Option ℕ
kmalloc_order zero o size = none
kmalloc_order (suc k) o size =
    let rest = kmalloc_order k (suc o) size in if leb size (2 ^ o) then some o else rest

unfoldable pub kmalloc : ℕ → Kernel → Option (Option ℕ × Kernel)
kmalloc size k = do
  o ← kmalloc_order 13 6 (u32 (size + 4))
  (r, h) ← slab_obj_alloc (k.kmalloc_allocators (o - 6)) k.heap
  elim r [
    | none ↦ some (none, record k { heap = h })
    | some a ↦ some (
      some (a + 4),
      record k { heap = h; owner = update k.owner a (k.kmalloc_allocators (o - 6)) },
    )
  ]

-- The allocator of the first word gives the place of the object's bufctl alone.
unfoldable pub kfree : ℕ → Kernel → Option Kernel
kfree addr k = slab_obj_free (addr - 4) k.heap >>= λ h. some (record k { heap = h })

-- The `n` allocators from the order `o` up; to find no memory is a panic.
unfoldable pub create_allocators : ℕ → ℕ → ℕ → Kernel → Option Kernel
create_allocators zero o first k = some k
create_allocators (suc n) o first k = do
  (r, h) ← slab_allocator_create first (2 ^ o) k.heap
  c ← r
  create_allocators n (suc o) first
      (record k { heap = h; kmalloc_allocators = update k.kmalloc_allocators (o - 6) c })

-- `first` is the address of `slab_allocator_allocator`, for objects of 24 bytes.
unfoldable pub slab_init : ℕ → Kernel → Option Kernel
slab_init first k =
    allocator_init first 24 k.heap >>= λ h. create_allocators 13 6 first (record k { heap = h })
