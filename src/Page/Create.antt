-- ===== src/Page/Create.antt =====
-- kernel/mm/page.c: `_pagegroup_create` and `page_add_range`. A range is given by the number of its first
-- page and of the page after its last; `page_add_range` rounds both down to pages.
use abmp.Common.{
  ℕ, zero, suc, ◌+◌, ◌-◌, ◌*◌, ◌/◌, ◌%◌, ◌^◌, false, ltb, [], ◌∷◌, ◌++◌, ◌==◌, if◌then◌else◌, u32,
}
use abmp.Page.{Pages}
use abmp.Page.Buddy.{Group, insert}

-- A difference of two `uintptr_t`.
abbrev pub minus : ℕ → ℕ → ℕ
minus a b = u32 (a + (4294967296 - b))

-- The bytes of the bit map of an order, for a range of `n` pages.
unfoldable pub map_bytes : ℕ → ℕ → ℕ
map_bytes o n = u32 (minus (n / 2 ^ o) 1 / 8 * 8 + 8) / 8

-- The loop that puts the bit maps of `k` orders from `o` up below the address `e`.
unfoldable pub below_maps : ℕ → ℕ → ℕ → ℕ → ℕ
below_maps zero o n e = e
below_maps (suc k) o n e = below_maps k (suc o) n (minus e (map_bytes o n))

-- The page after the last of a group: `struct pagegroup`, of 112 bytes on the 32-bit machine, and the bit
-- maps of the orders 1 to 7 are at the end of the range.
unfoldable pub group_end : ℕ → ℕ → ℕ
group_end first last =
    below_maps 7 1 (minus (last * 4096) (first * 4096) / 4096) (minus (last * 4096) 112) / 4096

abbrev pub empty_group : ℕ → ℕ → Group
empty_group base n = record { base = base; npages = n; free = λ o. []; bits = λ o q. false }

-- A block of each order below 7 that is a bit of the number of pages, from the end down.
unfoldable pub put_rest : ℕ → ℕ → ℕ × Group → ℕ × Group
put_rest zero o r = r
put_rest (suc k) o r =
    put_rest k (suc o)
      (if (r.1.npages / 2 ^ o) % 2 == 1 then (r.0 - 2 ^ o, insert o (r.0 - 2 ^ o) r.1) else r)

-- Blocks of the order 7 from the page `c` up to the page `e`, with `k` rounds at most.
unfoldable pub put_largest : ℕ → ℕ → ℕ → Group → Group
put_largest zero c e g = g
put_largest (suc k) c e g =
    let rest = put_largest k (c + 128) e (insert 7 c g) in if ltb c e then rest else g

-- The group of `n` pages from the page `first`.
unfoldable pub group_create : ℕ → ℕ → Group
group_create first n =
    let r = put_rest 7 0 (n, empty_group first n) in put_largest (r.0 / 128) 0 r.0 r.1

unfoldable pub page_add_range : ℕ → ℕ → Pages → Pages
page_add_range first last s =
    let e = group_end first last in
    if ltb first e
    then record s {
      groups = s.groups ++ (group_create first (e - first) ∷ []);
      freecount = u32 (s.freecount + (e - first));
    }
    else s
