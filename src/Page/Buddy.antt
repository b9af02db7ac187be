-- ===== src/Page/Buddy.antt =====
-- kernel/mm/page.c: one page group, its free lists and the bit maps of buddies.
use abmp.Common.{
  ℕ, zero, suc, ◌+◌, ◌-◌, ◌/◌, ◌%◌, ◌^◌, Bool, true, false, not, ltb, Option, none, some, List, [],
  ◌∷◌, ◌==◌, if◌then◌else◌, ◌>>=◌, ◌>>◌, kassert,
}

-- The orders are 0 to 7 (PAGE_NSIZES is 8).
pub record Group : Type 0 where
  pub base : ℕ
  pub npages : ℕ
  pub free : ℕ → List ℕ
  pub bits : ℕ → ℕ → Bool

abbrev pub is_nil : List ℕ → Bool
is_nil [] = true
is_nil (x ∷ xs) = false

abbrev pub contains : ℕ → List ℕ → Bool
contains i [] = false
contains i (j ∷ xs) = let rest = contains i xs in if j == i then true else rest

abbrev pub erase : ℕ → List ℕ → List ℕ
erase i [] = []
erase i (j ∷ xs) = let rest = erase i xs in if j == i then xs else j ∷ rest

unfoldable pub set_free : ℕ → List ℕ → Group → Group
set_free o xs g = record g { free = λ k. if k == o then xs else g.free k }

unfoldable pub insert : ℕ → ℕ → Group → Group
insert o i g = set_free o (i ∷ g.free o) g

unfoldable pub list_remove : ℕ → ℕ → Group → Option Group
list_remove o i g = kassert (contains i (g.free o)) >> some (set_free o (erase i (g.free o)) g)

-- `bit_flip`
unfoldable pub flip : ℕ → ℕ → Group → Group
flip o q g = record g {
  bits = λ k r. if k == o then if r == q then not (g.bits k r) else g.bits k r else g.bits k r;
}

unfoldable pub calculate_index : Group → ℕ → ℕ → Option ℕ
calculate_index g o i = do kassert (ltb o 8); kassert (ltb i g.npages); some (i / 2 ^ o)

-- The bit of the block that holds the block `i` of the order `o`, unless `o` is the largest.
unfoldable pub flip_parent : ℕ → ℕ → Group → Option Group
flip_parent o i g =
    if ltb o 7 then (calculate_index g (suc o) i >>= λ q. some (flip (suc o) q g)) else some g

-- The head of a list taken off, in a group whose list is not empty.
unfoldable pub pop : ℕ → List ℕ → Group → Option (ℕ × Group)
pop o [] g = none
pop o (i ∷ xs) g = some (i, set_free o xs g)

-- The end of `_page_alloc_order`.
unfoldable pub take_block : ℕ → Group → Option (ℕ × Group)
take_block o g = do (i, g₁) ← pop o (g.free o) g; g₂ ← flip_parent o i g₁; some (i, g₂)

-- `__page_split` of a block of the order `suc o`.
unfoldable pub split_block : ℕ → Group → Option Group
split_block o g = do
  kassert (ltb (suc o) 8)
  (i, g₁) ← pop (suc o) (g.free (suc o)) g
  g₂ ← flip_parent (suc o) i g₁
  q ← calculate_index g₂ (suc o) i
  kassert (not (g₂.bits (suc o) q))
  some (insert o (i + 2 ^ o) (insert o i g₂))

-- The loop of `_page_split` from the order `k` above `o` down to `o`.
unfoldable pub split_down : ℕ → ℕ → Group → Option Group
split_down zero o g = some g
split_down (suc k) o g = split_block (k + o) g >>= split_down k o

unfoldable pub buddy : ℕ → ℕ → ℕ
buddy o i = if (i / 2 ^ o) % 2 == 1 then i - 2 ^ o else i + 2 ^ o

abbrev pub smaller : ℕ → ℕ → ℕ
smaller a b = if ltb a b then a else b

-- One round of `__page_join`: a block and its buddy become a block of the order above.
unfoldable pub join_buddies : ℕ → ℕ → Group → Option Group
join_buddies o i g = do
  g₁ ← list_remove o i g
  g₂ ← list_remove o (buddy o i) g₁
  flip_parent (suc o) (smaller i (buddy o i)) (insert (suc o) (smaller i (buddy o i)) g₂)

-- `__page_join` at an order with `n` larger ones.
unfoldable pub page_join : ℕ → ℕ → ℕ → Group → Option Group
page_join zero o i g = some g
page_join (suc n) o i g = do
  q ← calculate_index g (suc o) i
  elim (g.bits (suc o) q) [
    | true ↦ some g
    | false ↦ join_buddies o i g >>= page_join n (suc o) (smaller i (buddy o i))
  ]

-- The body of `_page_free_order`, in the group of the page.
unfoldable pub free_block : ℕ → ℕ → Group → Option Group
free_block o i g =
    if ltb o 7
    then (flip_parent o i (insert o i g) >>= page_join (7 - o) o i)
    else some (insert o i g)
