-- ===== src/Slab.antt =====
-- kernel/mm/slab.c: how many objects and pages a slab has. SLAB_REDZONE and SLAB_CHECK_FREE are defined:
-- `struct slab_bufctl` has 8 bytes, `struct slab` has 16. `none` is a panic.
pub mod Size
pub mod Objects
pub mod Chain
pub mod Grow
pub mod Create
pub mod Kmalloc
pub mod Sizes
pub mod Reclaim
pub mod ReclaimAll
use abmp.Common.{
  ℕ, zero, suc, ◌+◌, ◌-◌, ◌*◌, ◌/◌, ◌^◌, Bool, ◌||◌, ltb, leb, Option, none, some, if◌then◌else◌,
  ◌>>=◌, u32,
}
use abmp.Page.Create.{minus}

unfoldable pub slab_size : ℕ → ℕ → ℕ
slab_size objsize nobjs = u32 (nobjs * (objsize + 8) + 16)

unfoldable pub slab_nobjs : ℕ → ℕ → ℕ
slab_nobjs objsize order = (4096 * 2 ^ order - 16) / (objsize + 8)

unfoldable pub slab_waste : ℕ → ℕ → ℕ
slab_waste objsize order = minus (4096 * 2 ^ order) (slab_size objsize (slab_nobjs objsize order))

-- `(int)(PAGE_SIZE << minorder) >= minsize`: from 2 ^ 31 on the size is negative.
abbrev pub is_large : ℕ → ℕ → Bool
is_large order minsize = leb 2147483648 minsize || leb minsize (4096 * 2 ^ order)

-- The first of `k` orders from `o` up that is large enough.
unfoldable pub min_order : ℕ → ℕ → ℕ → Option ℕ
min_order zero o minsize = none
min_order (suc k) o minsize =
    let rest = min_order k (suc o) minsize in if is_large o minsize then some o else rest

-- The orders from `o` up, `k` of them, against the best one so far.
unfoldable pub best_order : ℕ → ℕ → ℕ → ℕ → ℕ → ℕ
best_order zero o best waste objsize = best
best_order (suc k) o best waste objsize =
    let w = slab_waste objsize o in
    let r : ℕ × ℕ = if ltb w waste then (o, w) else (best, waste) in
    best_order k (suc o) r.0 r.1 objsize

-- `sa_order` and `sa_slab_nobjs`
unfoldable pub calc_slab_size : ℕ → Option (ℕ × ℕ)
calc_slab_size objsize = min_order 8 0 (slab_size objsize 1) >>= λ m.
    let o = best_order (4 - m) (suc m) m (slab_waste objsize m) objsize in
    some (o, slab_nobjs objsize o)
