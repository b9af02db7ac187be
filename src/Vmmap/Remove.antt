-- ===== src/Vmmap/Remove.antt =====
-- kernel/vm/vmmap.c, `vmmap_remove`: the four cases of an area that the range touches, and the
-- loop over `vmm_list`, which keeps a pointer to the next area while the body may insert one.
pub mod Cut
pub mod Loop
pub mod Left
pub mod Unmap
use abmp.Common.{
  ℕ, zero, suc, ◌+◌, Bool, ◌&&◌, ◌||◌, Option, none, some, List, [], ◌∷◌, ◌++◌, true, false, ltb,
  leb, u32, if◌then◌else◌, ◌>>=◌, ◌>>◌, length,
}
use abmp.Vmmap.{Vmarea, Kmem, vmarea_alloc, starts_later, before_last, place, insert_asserts, sub32}

-- The branches of the loop's body.
pub data Case : Type 0 where
  split shorten advance unlink keep : Case

unfoldable pub case_of : ℕ → ℕ → Vmarea → Case
case_of lopage hipage a =
    if ltb a.start lopage && ltb hipage a.end
    then split
    else if ltb a.start lopage && leb a.end hipage && leb lopage a.end
    then shorten
    else if leb lopage a.start && ltb hipage a.end && leb a.start hipage
    then advance
    else if leb lopage a.start && leb a.end hipage
    then unlink
    else keep

-- The area that a split makes; `vmmap_insert` then sets its `vma_vmmap`.
unfoldable pub upper_part : ℕ → ℕ → Vmarea → Vmarea → Vmarea
upper_part lopage npages a new = record new {
  start = u32 (lopage + npages);
  end = a.end;
  off = u32 (a.off + npages);
  prot = a.prot;
  flags = a.flags;
  obj = a.obj;
}

pub ref_obj : Option ℕ → Kmem → Kmem
ref_obj none k = k
ref_obj (some o) k = record k { refs = o ∷ k.refs }

-- `vmmap_insert` in the middle of an iteration: `seen` is the list up to the current area, and
-- `rest` begins with the area that the loop visits next.
pub place_behind : Vmarea → List Vmarea → List Vmarea → List Vmarea × List Vmarea
place_behind new seen [] = (place new seen, [])
place_behind new seen (a ∷ []) =
    if starts_later new (seen ++ (a ∷ []))
    then (seen ++ (new ∷ []), a ∷ [])
    else (seen, a ∷ new ∷ [])
place_behind new seen (a ∷ b ∷ rest) =
    if starts_later new (seen ++ (a ∷ b ∷ rest))
    then (seen, before_last new (a ∷ b ∷ rest))
    else (seen, a ∷ b ∷ (rest ++ (new ∷ [])))

module _ (lopage npages : ℕ) where
  -- The body of the loop at `a`: what stands up to the cursor, what is left to visit.
  pub visit : List Vmarea → Vmarea → List Vmarea → Kmem → Option (List Vmarea × List Vmarea × Kmem)
  unfolding case_of upper_part ref_obj place_behind
  visit seen a rest k = elim (case_of lopage (u32 (lopage + npages)) a) [
    | split ↦ do
      (blank, k') ← vmarea_alloc k
      let new = upper_part lopage npages a blank
      insert_asserts new
      let (seen', rest') =
          place_behind (record new { mapped = true }) (seen ++ (record a { end = lopage } ∷ []))
            rest
      some (seen', rest', ref_obj a.obj k')
    | shorten ↦ some (seen ++ (record a { end = lopage } ∷ []), rest, k)
    | advance ↦ some (
      seen
          ++ (record a {
            off = sub32 (a.off + lopage + npages) a.start;
            start = u32 (lopage + npages);
          }
              ∷ []),
      rest,
      k,
    )
    | unlink ↦ some (seen, rest, k)
    | keep ↦ some (seen ++ (a ∷ []), rest, k)
  ]

  -- The fuel is the number of areas that the loop may visit.
  pub remove_loop : ℕ → List Vmarea → List Vmarea → Kmem → Option (List Vmarea × Kmem)
  remove_loop fuel seen [] k = some (seen, k)
  remove_loop zero seen (a ∷ rest) k = none
  remove_loop (suc fuel) seen (a ∷ rest) k = elim (visit seen a rest k) [
    | none ↦ none
    | some (seen', rest', k') ↦ remove_loop fuel seen' rest' k'
  ]

-- Each area is visited at most once, and each split takes an area of the slab: so much fuel is
-- enough.
-- The source returns 0 whatever happens.
unfoldable pub vmmap_remove : List Vmarea → ℕ → ℕ → Kmem → Option (List Vmarea × Kmem)
unfolding visit remove_loop
vmmap_remove areas lopage npages k =
    remove_loop lopage npages (length areas + length k.free) [] areas k
