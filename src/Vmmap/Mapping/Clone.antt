-- ===== src/Vmmap/Mapping/Clone.antt =====
-- `vmmap_clone` copies a valid map, while the slab lasts.
use abmp.Common.{
  ℕ, ◌+◌, ◌≤◌, ◌<◌, ◌≡◌, refl, ap, ◌∙◌, false, true, some, List, [], ◌∷◌, ◌++◌, arith, All,
  All-append, length, map, append_assoc, append-nil,
}
use abmp.Vmmap.{Vmarea, Kmem, pn_low, pn_high, vmmap_insert}
use abmp.Vmmap.Order.{Ascends, place_last}
use abmp.Vmmap.Hits.{Proper, vmarea_alloc-cons}
use abmp.Vmmap.Mapping.{copy_of, clone_loop, vmmap_clone}

-- What a clone shares with its original.
abbrev pub Shape : Type 0
Shape = ℕ × ℕ × ℕ × ℕ × ℕ

abbrev pub shape : Vmarea → Shape
shape a = (a.start, a.end, a.off, a.prot, a.flags)

All-start-weaken :
    (n m : ℕ) (areas : List Vmarea)
    → n ≤ m
    → All (λ (s : Vmarea). s.start ≤ n) areas
    → All (λ (s : Vmarea). s.start ≤ m) areas
All-start-weaken n m [] le h = tt
All-start-weaken n m (a ∷ rest) le h = (omega arith, All-start-weaken n m rest le h.1)

copies : List Vmarea → List Vmarea → List Vmarea
copies [] free = []
copies (a ∷ rest) [] = []
copies (a ∷ rest) (b ∷ free) = record (copy_of a b) { mapped = true } ∷ copies rest free

shape-copies :
    (areas free : List Vmarea)
    → length areas ≤ length free
    → map shape (copies areas free) ≡ map shape areas
unfolding copies
shape-copies [] free h = refl
shape-copies (a ∷ rest) [] h = absurd (omega arith)
shape-copies (a ∷ rest) (b ∷ free) h = ap (λ t. shape a ∷ t) (shape-copies rest free (omega arith))

insert_copy :
    (newmap : List Vmarea) (a b : Vmarea)
    → pn_low ≤ a.start
    → a.start < a.end
    → a.end ≤ pn_high
    → All (λ (s : Vmarea). s.start ≤ a.start) newmap
    → vmmap_insert newmap (copy_of a (record b { mapped = false }))
      ≡ some (newmap ++ (record (copy_of a b) { mapped = true } ∷ []))
unfolding vmmap_insert
insert_copy newmap a b lo ne hi h =
    ground (arith, place_last (record (copy_of a b) { mapped = true }) newmap h)

clone_step :
    (a : Vmarea) (rest newmap newmap' : List Vmarea) (k : Kmem) (b : Vmarea) (bs : List Vmarea)
    → k.free ≡ b ∷ bs
    → vmmap_insert newmap (copy_of a (record b { mapped = false })) ≡ some newmap'
    → clone_loop (a ∷ rest) newmap k ≡ clone_loop rest newmap' (record k { free = bs })
unfolding clone_loop
clone_step a rest newmap newmap' k b bs f e = ground (arith, vmarea_alloc-cons k b bs f)

clone_loop-copies :
    (from : ℕ) (areas newmap : List Vmarea) (k : Kmem) (free : List Vmarea)
    → Ascends from areas
    → All Proper areas
    → All (λ (s : Vmarea). s.start ≤ from) newmap
    → k.free ≡ free
    → length areas ≤ length free
    → (k' : Kmem) × (clone_loop areas newmap k ≡ some (some (newmap ++ copies areas free), k'))
      × (length k'.free + length areas ≡ length free)
unfolding clone_loop copies
clone_loop-copies from [] newmap k free v p h f len =
    (k, rw (append-nil newmap), rw f (omega arith))
clone_loop-copies from (a ∷ rest) newmap k [] v p h f len = absurd (omega arith)
clone_loop-copies from (a ∷ rest) newmap k (b ∷ bs) v p h f len =
    let early = All-start-weaken from a.start newmap v.0 h in
    let copy : Vmarea = record (copy_of a b) { mapped = true } in
    let starts : All (λ (s : Vmarea). s.start ≤ a.end) (newmap ++ (copy ∷ [])) =
      All-append (λ (s : Vmarea). s.start ≤ a.end) newmap (copy ∷ [])
        (All-start-weaken a.start a.end newmap (omega arith) early) (omega arith, tt) in
    let (k', e, spent) =
      clone_loop-copies a.end rest (newmap ++ (copy ∷ [])) (record k { free = bs }) bs v.2 p.1
        starts refl (omega arith) in
    let step =
      clone_step a rest newmap (newmap ++ (copy ∷ [])) k b bs f
        (insert_copy newmap a b p.0.0 p.0.1 p.0.2 early) in
    (
      k',
      step ∙ e ∙ ap (λ t. some (some t, k')) (append_assoc newmap (copy ∷ []) (copies rest bs)),
      omega arith,
    )

-- `vmmap_clone` of a map whose list ascends, with an area left in the slab for each of its areas,
-- returns areas that have, in order, the bounds, offsets, protections and flags of the original,
-- and takes as many areas off the slab.
pub clone-shape :
    (areas : List Vmarea) (k : Kmem)
    → All Proper areas
    → Ascends pn_low areas
    → length areas ≤ length k.free
    → (t : List Vmarea) × (k' : Kmem) × (vmmap_clone true areas k ≡ some (some t, k'))
      × (map shape t ≡ map shape areas)
      × (length k'.free + length areas ≡ length k.free)
unfolding vmmap_clone
clone-shape areas k p v len =
    let (k', e, spent) = clone_loop-copies pn_low areas [] k k.free v p tt refl len in
    (copies areas k.free, k', e, shape-copies areas k.free len, spent)
