-- ===== src/Vmmap/Mapping.antt =====
-- kernel/vm/vmmap.c: `vmmap_clone` and `vmmap_map`.
-- What `vn_ops->mmap`, `shadow_create` and `anon_create` return is given: `none` is NULL.
pub mod Clone
pub mod Fixed
use abmp.Common.{
  ℕ, ◌+◌, ◌/◌, ◌%◌, Bool, ◌&&◌, ◌||◌, Option, none, some, List, [], ◌∷◌, true, false, not, ltb, leb,
  u32, if◌then◌else◌, ◌>>=◌, ◌>>◌, ◌==◌, kassert,
}
use abmp.Vmmap.{
  Vmarea, Kmem, Dir, pn_low, pn_high, vmarea_alloc, vmmap_insert, vmmap_is_range_empty,
  vmmap_find_range, no_range,
}
use abmp.Vmmap.Remove.{vmmap_remove}

-- The fields that both functions copy into what `vmarea_alloc` returned; `vma_obj` stays.
abbrev pub with_bounds : ℕ → ℕ → ℕ → ℕ → ℕ → Vmarea → Vmarea
with_bounds start end off prot flags blank = record blank {
  start = start;
  end = end;
  off = off;
  prot = prot;
  flags = flags;
}

abbrev pub copy_of : Vmarea → Vmarea → Vmarea
copy_of a blank = with_bounds a.start a.end a.off a.prot a.flags blank

-- The loop of `vmmap_clone`. The inner option is the pointer returned.
unfoldable pub clone_loop : List Vmarea → List Vmarea → Kmem → Option (Option (List Vmarea) × Kmem)
clone_loop [] newmap k = some (some newmap, k)
clone_loop (a ∷ rest) newmap k = elim (vmarea_alloc k) [
  | none ↦ some (none, k)
  | some (blank, k') ↦ elim (vmmap_insert newmap (copy_of a blank)) [
    | none ↦ none
    | some newmap' ↦ clone_loop rest newmap' k'
  ]
]

-- `created` says that `vmmap_create` did not return NULL.
unfoldable pub vmmap_clone : Bool → List Vmarea → Kmem → Option (Option (List Vmarea) × Kmem)
unfolding clone_loop
vmmap_clone false areas k = some (none, k)
vmmap_clone true areas k = clone_loop areas [] k

-- What `file->vn_ops->mmap` returns: a negative errno, or an object.
pub data Mmap : Type 0 where
  fails : ℕ → Mmap
  maps : ℕ → Mmap

-- What `vmmap_map` returns: 0, -1, or the errno of the file's `mmap`.
pub data Status : Type 0 where
  ok minus_one : Status
  errno : ℕ → Status

-- What the other parts of the kernel hand to `vmmap_map`.
pub record Backing : Type 0 where
  pub file : Option Mmap
  pub shadow : Option ℕ
  pub anon : Option ℕ

abbrev pub map_private : ℕ
map_private = 2

pub record Bound : Type 0 where
  pub status : Status
  pub obj : Option ℕ
  pub kmem : Kmem

shadow_over : ℕ → Option ℕ → Option ℕ → Kmem → Bound
shadow_over o none stale k = record { status = ok; obj = stale; kmem = k }
shadow_over o (some s) stale k = record {
  status = ok;
  obj = some s;
  kmem = record k { refs = o ∷ k.refs; shadows = (s, o) ∷ k.shadows };
}

referenced : Option ℕ → Option ℕ → Kmem → Bound
referenced none stale k = record { status = minus_one; obj = stale; kmem = k }
referenced (some o) stale k = record {
  status = ok;
  obj = some o;
  kmem = record k { refs = o ∷ k.refs };
}

-- The object of the new area, once it is in the map; `stale` is what the slab left there.
bind_object : Option Mmap → ℕ → Option ℕ → Option ℕ → Option ℕ → Kmem → Bound
unfolding shadow_over referenced
bind_object (some (fails i)) flags shadow anon stale k = record {
  status = errno i;
  obj = stale;
  kmem = k;
}
bind_object (some (maps o)) flags shadow anon stale k = shadow_over o shadow stale k
bind_object none flags shadow anon stale k =
    referenced (if flags == map_private then shadow else anon) stale k

module _ (env : Backing) (npages prot flags off : ℕ) where
  unfoldable pub bound : Option ℕ → Kmem → Bound
  unfolding bind_object
  bound stale k = bind_object env.file flags env.shadow env.anon stale k

  -- From `vmarea_alloc` on; both branches of `vmmap_map` end so.
  map_at : ℕ → List Vmarea → Kmem → Option (Status × List Vmarea × Kmem)
  map_at start areas k = elim (vmarea_alloc k) [
    | none ↦ some (minus_one, areas, k)
    | some (blank, k') ↦ do
      let b = bound blank.obj k'
      let new = with_bounds start (u32 (start + npages)) off prot flags blank
      t ← vmmap_insert areas (record new { obj = b.obj })
      some (b.status, t, b.kmem)
  ]

  map_asserts : ℕ → Option (Unit {0})
  map_asserts lopage = do
    kassert (ltb 0 npages)
    kassert (ltb prot 8)
    kassert (flags % 2 == 1 || (flags / 2) % 2 == 1)
    kassert (lopage == 0 || leb pn_low lopage)
    kassert (lopage == 0 || leb (u32 (lopage + npages)) pn_high)
    kassert (off % 4096 == 0)

  map_anywhere : Dir → List Vmarea → Kmem → Option (Status × List Vmarea × Kmem)
  unfolding map_at
  map_anywhere dir areas k = do
    start ← vmmap_find_range areas npages dir
    if start == no_range then some (minus_one, areas, k) else map_at start areas k

  map_fixed : ℕ → List Vmarea → Kmem → Option (Status × List Vmarea × Kmem)
  unfolding map_at
  map_fixed lopage areas k = do
    empty ← vmmap_is_range_empty areas lopage npages
    (areas', k') ← if empty then some (areas, k) else vmmap_remove areas lopage npages k
    map_at lopage areas' k'

  -- The map and the counts after the call, beside what it returns. The area is not handed out:
  -- the source assigns to its parameter `new` only.
  unfoldable pub vmmap_map : ℕ → Dir → List Vmarea → Kmem → Option (Status × List Vmarea × Kmem)
  unfolding map_asserts map_anywhere map_fixed
  vmmap_map lopage dir areas k =
      map_asserts lopage
      >> (if lopage == 0 then map_anywhere dir areas k else map_fixed lopage areas k)
