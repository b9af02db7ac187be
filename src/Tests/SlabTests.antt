-- ===== src/Tests/SlabTests.antt =====
-- Runs of the slab allocator (kernel/mm/slab.c).
use abmp.Common.{
  map, sym, subst, ℕ, ◌+◌, ◌*◌, ◌≤◌, ◌<◌, ◌^◌, ◌≡◌, refl, some, [], ◌∷◌, arith, false,
}
use abmp.Page.{Pages, page_init, page_alloc_n, order_from, page_alloc_order, search, take_from}
use abmp.Page.Buddy.{
  set_free, insert, flip, calculate_index, flip_parent, pop, take_block, split_block, split_down,
}
use abmp.Page.Create.{
  map_bytes, below_maps, group_end, put_rest, put_largest, group_create, page_add_range,
}
use abmp.Slab.{slab_size, slab_nobjs, slab_waste, min_order, best_order, calc_slab_size}
use abmp.Slab.Size.{Fits, Full, calc_slab_size-Full}
use abmp.Slab.Objects.{
  slab_allocators_reclaim, link_objs, Heap, slab_obj_alloc, slab_obj_free, add_slab,
}
use abmp.Slab.Chain.{Given, Alike, obj_alloc-Given}
use abmp.Slab.Grow.{objects, header, add_slab-SlabFree, add_slab_open, obj_alloc-grow}
use abmp.Slab.Kmalloc.{Kernel, kmalloc, kfree}
use abmp.Slab.Sizes.{LeastSize, kfree-kmalloc}
use abmp.Page.Count.{extent, Owned, free_at_most}
use abmp.Page.Alloc.{Allocated, After, page_alloc_order-Allocated}
use abmp.Slab.ReclaimAll.{Walked, allocators_reclaim-Walked}
use abmp.Tests.PageTests.{memory, memory-AllValid, state}

-- Objects of 100 bytes: eight pages hold 303.
hundred : calc_slab_size 100 ≡ some (3, 303)
unfolding calc_slab_size min_order best_order slab_waste slab_nobjs slab_size
hundred = refl

calc_slab_size-Full_example :
    (o : ℕ) × ((n : ℕ) × ((calc_slab_size 100 ≡ some (o, n))
        × (Fits 100 o
            × (Full 100 o n
                × ((j : ℕ) → j < 5 → Fits 100 j → slab_waste 100 o ≤ slab_waste 100 j)))))
calc_slab_size-Full_example = calc_slab_size-Full 100 (omega arith)

-- An allocator at the address 1 with 3 objects of 128 bytes and their red zones in a slab of a page, and no slab.
abbrev heap : Heap
heap = record {
  allocators = 1 ∷ [];
  allocator = λ c. record { objsize = 136; order = 0; nobjs = 3; slabs = [] };
  slab = λ s. record { inuse = 0; free = 0; addr = 0 };
  bufctl = λ o. record { word = 0; is_free = false };
  intact = λ o. false;
  pages = memory;
}

abbrev one_less : Pages
one_less = state (page_alloc_n (λ q. q) 1 memory)

one_page : page_alloc_n (λ q. q) (2 ^ 0) memory ≡ some (some 143, one_less)
unfolding page_alloc_n order_from page_alloc_order search take_from split_down split_block
    take_block pop flip_parent calculate_index flip insert set_free page_add_range group_create
    put_rest put_largest group_end below_maps map_bytes page_init
one_page = refl

obj_alloc-grow_example :
    (h' : Heap) × ((slab_obj_alloc 1 heap ≡ some (some (143 * 4096 + 4), h'))
      × Given 3 (header 1 (143 * 4096) heap) (143 * 4096) (objects 2 136 (143 * 4096 + 144)) h')
obj_alloc-grow_example =
    obj_alloc-grow 1 143 one_less heap (omega arith) (omega arith) refl one_page

abbrev slab_added : Heap
slab_added = add_slab 1 0x8f000 heap

obj_alloc-Given_example :
    (h' : Heap) × ((slab_obj_alloc 1 slab_added ≡ some (some (0x8f000 + 4), h'))
      × (Given 3 (header 1 0x8f000 heap) 0x8f000 (objects 2 136 (0x8f000 + 144)) h'
          × ((h'' : Heap) × ((slab_obj_free (0x8f000 + 4) h' ≡ some h'') × Alike slab_added h''))))
unfolding add_slab
obj_alloc-Given_example =
    obj_alloc-Given 1 (header 1 0x8f000 heap) 0x8f000 (objects 2 136 (0x8f000 + 144)) slab_added
      (add_slab_open 1 0x8f000 heap (omega arith))
      (add_slab-SlabFree 1 0x8f000 heap (omega arith) (omega arith))

abbrev kernel : Kernel
kernel = record { heap = slab_added; kmalloc_allocators = λ o. 1; owner = λ o. 0 }

order_seven : LeastSize (80 + 4) 7
order_seven =
    (omega arith, (omega arith, (λ j p q. let e : j ≡ 6 = omega arith in rw e (omega arith))))

kfree-kmalloc_example :
    (k' : Kernel) × ((kmalloc 80 kernel ≡ some (some (0x8f000 + 8), k'))
      × ((k'.owner (0x8f000 + 4) ≡ 1)
          × ((k'' : Kernel) × ((kfree (0x8f000 + 8) k' ≡ some k'') × Alike slab_added k''.heap))))
unfolding add_slab
kfree-kmalloc_example =
    kfree-kmalloc 80 7 (header 1 0x8f000 heap) 0x8f000 (objects 2 136 (0x8f000 + 144)) kernel
      (omega arith) order_seven (add_slab_open 1 0x8f000 heap (omega arith))
      (add_slab-SlabFree 1 0x8f000 heap (omega arith) (omega arith))

one_order : page_alloc_order (λ q. q) 0 memory ≡ some (some 143, one_less)
unfolding page_alloc_n order_from page_alloc_order search take_from split_down split_block
    take_block pop flip_parent calculate_index flip insert set_free page_add_range group_create
    put_rest put_largest group_end below_maps map_bytes page_init
one_order = refl

-- Page 143, which the slab has.
one-After : Owned 0 143 (map extent memory.groups) × After 0 143 memory one_less
one-After =
    let (r, (e, q)) = page_alloc_order-Allocated (λ q. q) 0 memory (omega arith) memory-AllValid in
    let t = one_order in
    let z : r ≡ (some 143, one_less) = cc in subst (Allocated (λ q. q) 0 memory) z q

abbrev grown : Heap
grown = add_slab 1 0x8f000 (record heap { pages = one_less })

allocators_reclaim-Walked_example : Walked (1 ∷ []) 0 grown (slab_allocators_reclaim 0 grown)
unfolding add_slab link_objs
allocators_reclaim-Walked_example =
    allocators_reclaim-Walked grown one-After.1.0
      (omega arith, ((subst (Owned 0 143) (sym one-After.1.1.0) one-After.0, tt), (refl, tt)))
      (λ p. omega (
        arith,
        one-After.1.1.1.1 p,
        free_at_most memory.groups p memory-AllValid.0 memory-AllValid.1.0,
      ))
