-- ===== src/Vmmap.antt =====
-- kernel/vm/vmmap.c: the areas of an address space, in the order of `vmm_list`, and the
-- operations that read the list or insert into it.
-- A `KASSERT` that fails, and an access through NULL, is `none` (the kernel panics).
pub mod Hits
pub mod Order
pub mod Range
pub mod Remove
pub mod Mapping
use mathlib.Core.List.{reverse}
use abmp.Common.{
  ℕ, ◌+◌, ◌-◌, Bool, true, false, not, ◌&&◌, ◌||◌, Option, some, none, List, [], ◌∷◌, ◌++◌, ltb,
  leb, u32, if◌then◌else◌, ◌>>=◌, ◌>>◌, kassert,
}

-- `vmarea_t`. `mapped` says that `vma_vmmap` is not NULL; an `mmobj_t` is its address.
pub record Vmarea : Type 0 where
  pub start : ℕ
  pub end : ℕ
  pub off : ℕ
  pub prot : ℕ
  pub flags : ℕ
  pub mapped : Bool
  pub obj : Option ℕ

-- ADDR_TO_PN(USER_MEM_LOW) and ADDR_TO_PN(USER_MEM_HIGH)
abbrev pub pn_low : ℕ
pn_low = 0x400

abbrev pub pn_high : ℕ
pn_high = 0xc0000

-- VMMAP_DIR_LOHI and VMMAP_DIR_HILO
pub data Dir : Type 0 where
  lohi hilo : Dir

-- What vmmap.c uses beside the map: the objects that the slab allocator of `vmarea_t` can still
-- give, each with the bytes that it holds already; the calls of `mmo_ops->ref`, newest first;
-- the links from a shadow object to what it shadows.
pub record Kmem : Type 0 where
  pub free : List Vmarea
  pub refs : List ℕ
  pub shadows : List (ℕ × ℕ)

alloc_from : List Vmarea → Kmem → Option (Vmarea × Kmem)
alloc_from [] k = none
alloc_from (a ∷ rest) k = some (record a { mapped = false }, record k { free = rest })

-- `none` is NULL. Only `vma_vmmap` is cleared.
unfoldable pub vmarea_alloc : Kmem → Option (Vmarea × Kmem)
unfolding alloc_from
vmarea_alloc k = alloc_from k.free k

-- A `break` in the body of `list_iterate_begin` (kernel/include/util/list.h) leaves the
-- `do … while (0)` around the body, and no more: the iteration goes on. So each loop below runs
-- to the end of the list.

-- `before` after the loop of `vmmap_insert`.
unfoldable pub starts_later : Vmarea → List Vmarea → Bool
starts_later new [] = false
starts_later new (a ∷ rest) = ltb new.start a.start || starts_later new rest

-- `list_insert_before` at the area that the loop ended with, the last one.
unfoldable pub before_last : Vmarea → List Vmarea → List Vmarea
before_last new [] = new ∷ []
before_last new (a ∷ []) = new ∷ a ∷ []
before_last new (a ∷ b ∷ rest) = a ∷ before_last new (b ∷ rest)

unfoldable pub place : Vmarea → List Vmarea → List Vmarea
unfolding starts_later before_last
place new [] = new ∷ []
place new (a ∷ rest) =
    if starts_later new (a ∷ rest) then before_last new (a ∷ rest) else (a ∷ rest) ++ (new ∷ [])

-- The assertions of `vmmap_insert`.
unfoldable pub insert_asserts : Vmarea → Option (Unit {0})
insert_asserts new = do
  kassert (not new.mapped)
  kassert (ltb new.start new.end)
  kassert (leb pn_low new.start && leb new.end pn_high)

unfoldable pub vmmap_insert : List Vmarea → Vmarea → Option (List Vmarea)
unfolding insert_asserts
vmmap_insert areas new = do insert_asserts new; some (place (record new { mapped = true }) areas)

-- `vma`, through the loop of `vmmap_lookup`.
unfoldable pub lookup_from : Option Vmarea → List Vmarea → ℕ → Option Vmarea
lookup_from vma [] vfn = vma
lookup_from vma (a ∷ rest) vfn =
    lookup_from (if leb a.start vfn && ltb vfn a.end then some a else vma) rest vfn

unfoldable pub vmmap_lookup : List Vmarea → ℕ → Option Vmarea
unfolding lookup_from
vmmap_lookup areas vfn = lookup_from none areas vfn

-- `i`, through the loop of `vmmap_is_range_empty`.
unfoldable pub empty_from : Bool → List Vmarea → ℕ → ℕ → Bool
empty_from i [] startvfn endvfn = i
empty_from i (a ∷ rest) startvfn endvfn =
    empty_from (ltb endvfn a.start || leb a.end startvfn) rest startvfn endvfn

unfoldable pub vmmap_is_range_empty : List Vmarea → ℕ → ℕ → Option Bool
unfolding empty_from
vmmap_is_range_empty areas startvfn npages =
    let endvfn = u32 (startvfn + npages) in
    kassert (ltb startvfn endvfn && leb pn_low startvfn && leb endvfn pn_high)
    >> some (empty_from true areas startvfn endvfn)

-- -1, as an `int` bit pattern
abbrev pub no_range : ℕ
no_range = 0xffffffff

-- `uint32_t` subtraction
abbrev pub sub32 : ℕ → ℕ → ℕ
sub32 a b = u32 (a + 4294967296 - u32 b)

-- The loop of `vmmap_find_range` down the list, with `startvfn`; the list is what is left to
-- visit, last area first.
unfoldable pub find_down : List Vmarea → ℕ → ℕ → List Vmarea → Option ℕ
find_down areas npages startvfn [] = some startvfn
find_down areas npages startvfn (a ∷ rest) = do
  let below = sub32 a.start npages
  empty ← vmmap_is_range_empty areas below (sub32 a.start 1)
  find_down areas npages (if empty then below else startvfn) rest

-- The loop up the list.
unfoldable pub find_up : List Vmarea → ℕ → ℕ → List Vmarea → Option ℕ
find_up areas npages startvfn [] = some startvfn
find_up areas npages startvfn (a ∷ rest) = do
  let above = u32 (a.end + 1)
  empty ← vmmap_is_range_empty areas above (u32 (a.end + npages))
  find_up areas npages (if empty then above else startvfn) rest

find_in : List Vmarea → ℕ → Dir → Option ℕ
unfolding find_down find_up
find_in [] npages hilo = some (u32 (sub32 pn_high npages + 1))
find_in [] npages lohi = some pn_low
find_in (a ∷ rest) npages hilo = find_down (a ∷ rest) npages no_range (reverse (a ∷ rest))
find_in (a ∷ rest) npages lohi = find_up (a ∷ rest) npages no_range (a ∷ rest)

unfoldable pub vmmap_find_range : List Vmarea → ℕ → Dir → Option ℕ
unfolding find_in
vmmap_find_range areas npages dir = kassert (ltb 0 npages) >> find_in areas npages dir
