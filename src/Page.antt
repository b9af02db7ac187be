-- ===== src/Page.antt =====
-- kernel/mm/page.c: the buddy allocator of pages. Addresses are page-aligned and given as page numbers;
-- inside a group a page goes by its distance from `pg_baseaddr`. `none` is a failed `KASSERT`, a panic,
-- or a page taken off a list that it is not on.
pub mod Buddy
pub mod Sums
pub mod Valid
mod Steps
mod Twins
mod Take
mod Join
pub mod Walk
pub mod Count
pub mod Alloc
pub mod Release
pub mod Blocks
pub mod Create
pub mod Fill
pub mod Maps
pub mod Ranges
use abmp.Common.{
  ℕ, zero, suc, ◌+◌, ◌-◌, ◌*◌, ◌/◌, ◌%◌, ◌^◌, Bool, true, false, not, ◌&&◌, ◌||◌, ltb, leb, Option,
  none, some, List, [], ◌∷◌, ◌++◌, ◌==◌, if◌then◌else◌, ◌>>=◌, ◌>>◌, kassert, u32,
}
use abmp.Page.Buddy.{Group, is_nil, take_block, split_down, free_block, insert}

pub record Pages : Type 0 where
  pub groups : List Group
  pub freecount : ℕ

-- The walk over `pagegroup_list` up to the first group that passes a test, which a step changes.
abbrev pub update_first :
    (Group → Bool) → (Group → Option (ℕ × Group)) → List Group → Option (Option ℕ × List Group)
update_first p f [] = some (none, [])
update_first p f (g ∷ gs) =
    let rest = update_first p f gs >>= λ r. some (r.0, g ∷ r.1) in
    if p g then (f g >>= λ r. some (some r.0, r.1 ∷ gs)) else rest

abbrev pub has_block : ℕ → Group → Bool
has_block o g = not (is_nil (g.free o))

-- A block of the order `k + o` split down to `o`, and the first block of that order taken.
unfoldable pub take_from : ℕ → ℕ → Group → Option (ℕ × Group)
take_from k o g = do g' ← split_down k o g; (i, g'') ← take_block o g'; some (g.base + i, g'')

-- The orders from `k + o` up, `n` of them: the list of `_page_alloc_order` where `k` is 0, those of the
-- loop in `_page_split` else. The group that `_page_split` returns is the one that `found` goes on with.
unfoldable pub search : ℕ → ℕ → ℕ → List Group → Option (Option ℕ × List Group)
search zero k o gs = some (none, gs)
search (suc n) k o gs = update_first (has_block (k + o)) (take_from k o) gs >>= λ (r, gs'). elim r [
  | some a ↦ some (some a, gs')
  | none ↦ search n (suc k) o gs
]

-- `reclaim` is `slab_allocators_reclaim(0)`, which `_page_split` calls before it gives up.
unfoldable pub page_alloc_order : (Pages → Pages) → ℕ → Pages → Option (Option ℕ × Pages)
page_alloc_order reclaim o s = search (8 - o) 0 o s.groups >>= λ (r, gs). elim r [
  | some a ↦
      some (some a, record s { groups = gs; freecount = u32 (s.freecount + (4294967296 - 2 ^ o)) })
  | none ↦ some (none, reclaim s)
]

-- The test of `_pagegroup_from_address`.
abbrev pub in_group : ℕ → Group → Bool
in_group a g = leb g.base a && ltb a (g.base + g.npages)

-- An address outside every group is ignored.
unfoldable pub page_free_order : ℕ → ℕ → Pages → Option Pages
page_free_order a o s =
    update_first (in_group a) (λ g. free_block o (a - g.base) g >>= λ g'. some (0, g')) s.groups
    >>= λ (r, gs). elim r [
      | some x ↦ some (record s { groups = gs; freecount = u32 (s.freecount + 2 ^ o) })
      | none ↦ some s
    ]

-- `(1 << order) >= (int)npages`: from 2 ^ 31 on the number is negative.
abbrev pub is_enough : ℕ → ℕ → Bool
is_enough o n = leb 2147483648 n || leb n (2 ^ o)

-- The loop of `page_alloc_n` and of `page_free_n`, with `k` orders left to try.
unfoldable pub order_from : ℕ → ℕ → ℕ → Option ℕ
order_from zero o n = none
order_from (suc k) o n = let rest = order_from k (suc o) n in if is_enough o n then some o else rest

unfoldable pub page_alloc_n : (Pages → Pages) → ℕ → Pages → Option (Option ℕ × Pages)
page_alloc_n reclaim n s = order_from 8 0 n >>= λ o. page_alloc_order reclaim o s

unfoldable pub page_free_n : ℕ → ℕ → Pages → Option Pages
page_free_n a n s = order_from 8 0 n >>= λ o. page_free_order a o s

unfoldable pub page_alloc : (Pages → Pages) → Pages → Option (Option ℕ × Pages)
page_alloc reclaim s = page_alloc_order reclaim 0 s

unfoldable pub page_free : ℕ → Pages → Option Pages
page_free a s = page_free_order a 0 s

unfoldable pub page_free_count : Pages → ℕ
page_free_count s = s.freecount

unfoldable pub page_init : Pages
page_init = record { groups = []; freecount = 0 }
