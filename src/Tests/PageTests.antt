-- ===== src/Tests/PageTests.antt =====
-- Runs of the page allocator (kernel/mm).
use abmp.Common.{
  ◌%◌, ℕ, ◌+◌, ◌-◌, ◌≤◌, ◌<◌, ◌≡◌, ◌⊎◌, refl, sym, subst, Option, none, some, map, arith, ◌>>=◌,
}
use abmp.Page.{
  Pages, page_init, page_alloc_n, page_free_n, order_from, page_alloc_order, page_free_order,
  search, take_from,
}
use abmp.Page.Buddy.{
  set_free, insert, list_remove, flip, calculate_index, flip_parent, pop, take_block, split_block,
  split_down, buddy, join_buddies, page_join, free_block,
}
use abmp.Page.Create.{
  map_bytes, below_maps, group_end, put_rest, put_largest, group_create, page_add_range,
}
use abmp.Page.Sums.{block}
use abmp.Page.Valid.{Some}
use abmp.Page.Walk.{free_at}
use abmp.Page.Count.{AllValid, free_at_most, extent, Owned}
use abmp.Page.Alloc.{Allocated, After, page_alloc_order-Allocated}
use abmp.Page.Release.{Freed, page_free_order-Freed}
use abmp.Page.Blocks.{
  Least, page_alloc_n-Allocated, page_alloc_n_panic, page_free_n-alloc_n, page_alloc_n_apart,
}
use abmp.Page.Maps.{Fits}
use abmp.Page.Fill.{page_add_range-Added}
use abmp.Page.Ranges.{page_add_range-AllValid}

-- Pages 16 to 143: page 144 has the bit maps and the group.
abbrev pub memory : Pages
memory = page_add_range 16 145 page_init

memory_end : group_end 16 145 ≡ 144
unfolding group_end below_maps map_bytes
memory_end = refl

no_pages-AllValid : AllValid page_init
unfolding page_init
no_pages-AllValid = (tt, (tt, (omega arith, refl)))

memory-AllValid_example :
    AllValid memory
    × (Fits 16 145
        × ((memory.freecount ≡ page_init.freecount + (group_end 16 145 - 16))
            × ((p : ℕ)
                → free_at memory.groups p
                  ≡ free_at page_init.groups p + block (group_end 16 145 - 16) p 16)))
unfolding page_init
memory-AllValid_example =
    page_add_range-AllValid 16 145 page_init no_pages-AllValid (omega arith) (omega arith)
      (omega (arith, memory_end)) tt (omega (arith, memory_end))

-- A range whose pages fill blocks of several orders.
page_add_range-Added_example :
    Fits 16 100
    × (((page_add_range 16 100 page_init).freecount
          ≡ (page_init.freecount + (group_end 16 100 - 16)) % 4294967296)
        × ((p : ℕ)
            → free_at (page_add_range 16 100 page_init).groups p
              ≡ free_at page_init.groups p + block (group_end 16 100 - 16) p 16))
page_add_range-Added_example = page_add_range-Added 16 100 page_init (omega arith) (omega arith)

-- No page comes back from the slab allocators.
abbrev no_reclaim : Pages → Pages
no_reclaim s = s

pub memory-AllValid : AllValid memory
unfolding page_init
memory-AllValid =
    (page_add_range-AllValid 16 145 page_init no_pages-AllValid (omega arith) (omega arith)
      (omega (arith, memory_end)) tt (omega (arith, memory_end))).0

-- The state that an allocation leaves.
abbrev pub state : Option (Option ℕ × Pages) → Pages
state (some r) = r.1
state none = page_init

abbrev three : Pages
three = state (page_alloc_n no_reclaim 3 memory)

abbrev five : Pages
five = state (page_alloc_n no_reclaim 5 three)

three_pages : page_alloc_n no_reclaim 3 memory ≡ some (some 140, three)
unfolding page_alloc_n order_from page_alloc_order search take_from split_down split_block
    take_block pop flip_parent calculate_index flip insert set_free page_add_range group_create
    put_rest put_largest group_end below_maps map_bytes page_init
three_pages = refl

five_pages : page_alloc_n no_reclaim 5 three ≡ some (some 128, five)
unfolding page_alloc_n order_from page_alloc_order search take_from split_down split_block
    take_block pop flip_parent calculate_index flip insert set_free page_add_range group_create
    put_rest put_largest group_end below_maps map_bytes page_init
five_pages = refl

page_alloc_n-Allocated_example :
    (o : ℕ) × (Least 3 o × Some (Allocated no_reclaim o memory) (page_alloc_n no_reclaim 3 memory))
page_alloc_n-Allocated_example =
    page_alloc_n-Allocated no_reclaim 3 memory (omega arith) memory-AllValid

page_alloc_n_panic_example :
    (page_alloc_n no_reclaim 129 memory ≡ none) × (page_free_n 16 129 memory ≡ none)
page_alloc_n_panic_example = page_alloc_n_panic no_reclaim 16 129 memory (omega arith) (omega arith)

page_free_n-alloc_n_example :
    Some
      (λ t.
        AllValid t
        × ((t.freecount ≡ memory.freecount)
            × ((p : ℕ) → free_at t.groups p ≡ free_at memory.groups p)))
      (page_free_n 140 3 three)
page_free_n-alloc_n_example =
    page_free_n-alloc_n no_reclaim 3 140 memory three (omega arith) memory-AllValid three_pages

page_alloc_n_apart_example : (140 < 128) ⊎ (128 + 5 ≤ 140)
page_alloc_n_apart_example =
    page_alloc_n_apart no_reclaim 3 5 140 128 memory three five (omega arith) (omega arith)
      memory-AllValid three_pages five_pages 140 (omega arith) (omega arith)

three_order : page_alloc_order no_reclaim 2 memory ≡ some (some 140, three)
unfolding page_alloc_order search take_from split_down split_block take_block pop flip_parent
    calculate_index flip insert set_free page_add_range group_create put_rest put_largest group_end
    below_maps map_bytes page_init page_alloc_n order_from
three_order = refl

-- The block of the pages 140 to 143.
three-After : Owned 2 140 (map extent memory.groups) × After 2 140 memory three
three-After =
    let (r, (e, q)) =
      page_alloc_order-Allocated no_reclaim 2 memory (omega arith) memory-AllValid in
    let t = three_order in
    let z : r ≡ (some 140, three) = cc in subst (Allocated no_reclaim 2 memory) z q

page_free_order-Freed_example : Some (Freed 2 140 three) (page_free_order 140 2 three)
page_free_order-Freed_example =
    page_free_order-Freed 2 140 three (omega arith) three-After.1.0
      (subst (Owned 2 140) (sym three-After.1.1.0) three-After.0)
      (λ p. omega (
        arith,
        three-After.1.1.1.1 p,
        free_at_most memory.groups p memory-AllValid.0 memory-AllValid.1.0,
      ))

-- A group of one page: its page comes back and is joined with a page past the end.
single_page : (take_block 0 (group_create 0 1) >>= λ r. free_block 0 r.0 r.1) ≡ none
unfolding take_block pop flip_parent calculate_index flip insert set_free group_create put_rest
    put_largest free_block page_join join_buddies list_remove buddy
single_page = refl
