-- ===== src/Vmmap/Remove/Unmap.antt =====
-- `vmmap_remove` (kernel/vm/vmmap.c) on a valid map: it returns, and what is mapped afterwards.
use mathlib.Core.Option
use abmp.Common.{
  ℕ, zero, suc, ◌+◌, ◌-◌, ◌≤◌, ◌<◌, ◌≡◌, ◌≢◌, refl, sym, ap, ◌∙◌, ◌&&◌, false, some, none, List, [],
  ◌∷◌, ◌++◌, map, arith, ltb, leb, if◌then◌else◌, All, length, ◌⊎◌, inl, inr, length-map,
  Bool-cases,
}
use abmp.Vmmap.{Vmarea, Kmem, vmmap_lookup}
use abmp.Vmmap.Hits.{hits, Proper, IsValid, lookup-hits, lookup-holds}
use abmp.Vmmap.Remove.{case_of, split, ref_obj, place_behind, remove_loop, vmmap_remove}
use abmp.Vmmap.Remove.Cut.{
  pieces, cut, lower_piece, upper_piece, in_range, piece_at, terms_at, object_page,
  last_or-piece_at, last_or-map, object_page-piece_at,
}
use abmp.Vmmap.Remove.Loop.{
  Behind, place_behind-Behind, length-Behind, visit_unsplit, visit_split, remove_loop_step, Unsplit,
  loop_plain, upper_unsplit, hits-Unsplit, Case-cases, free-ref_obj, split-holds,
}
use abmp.Vmmap.Remove.Left.{Leaves, cut-Leaves, step-Leaves, split-Leaves, Behind-rest}

module _ (lo n : ℕ) (small : lo + n < 4294967296) where
  -- The loop from a state of it: it returns, and takes at most one area off the slab.
  abbrev Runs : ℕ → List Vmarea → List Vmarea → Kmem → Vmarea → List Vmarea → Type 0
  Runs fuel seen rest k b bs =
      (t : List Vmarea) × (k' : Kmem) × (remove_loop lo n fuel seen rest k ≡ some (t, k'))
      × ((k'.free ≡ b ∷ bs) ⊎ (k'.free ≡ bs))
      × Leaves lo n small seen rest t

  loop_split :
      (fuel : ℕ) (seen : List Vmarea) (a : Vmarea) (rest : List Vmarea) (k : Kmem) (b : Vmarea)
      (bs : List Vmarea)
      → case_of lo (lo + n) a ≡ split
      → Proper a
      → length (hits (a ∷ rest) (lo - 1)) ≤ 1
      → k.free ≡ b ∷ bs
      → length rest + 1 ≤ fuel
      → Runs (suc fuel) seen (a ∷ rest) k b bs
  loop_split fuel seen a rest k b bs e p one f len =
      let new : Vmarea = upper_piece lo n a in
      let seen₁ : List Vmarea = seen ++ (lower_piece lo n a ∷ []) in
      let k₁ : Kmem = ref_obj a.obj (record k { free = bs }) in
      let seen' : List Vmarea = (place_behind new seen₁ rest).0 in
      let rest' : List Vmarea = (place_behind new seen₁ rest).1 in
      let b' : Behind new seen₁ rest (seen', rest') = place_behind-Behind new seen₁ rest in
      let alone : hits rest (lo - 1) ≡ [] =
        ground (arith, split-holds lo n small a e, empty_of_length (hits rest (lo - 1))) in
      let unsplit : Unsplit lo n small rest' =
        Behind-rest lo n small (λ (c : Vmarea). case_of lo (lo + n) c ≢ split) new seen₁ rest seen'
          rest' b' (upper_unsplit lo n small a) (hits-Unsplit lo n small rest alone) in
      (
        seen' ++ cut lo n rest',
        k₁,
        remove_loop_step lo n small fuel seen a rest k
              (visit_split lo n small seen a rest k b bs e f p)
            ∙ loop_plain lo n small fuel seen' rest' k₁ unsplit
                (omega (arith, length-Behind new seen₁ rest seen' rest' b')),
        inr (free-ref_obj lo n small a.obj (record k { free = bs })),
        split-Leaves lo n small seen a rest seen' rest' e b',
      )
    where
      empty_of_length : (xs : List Vmarea) → length xs ≤ 0 → xs ≡ []
      empty_of_length [] h = refl
      empty_of_length (x ∷ xs) h = absurd (omega arith)

  loop-Runs :
      (fuel : ℕ) (seen rest : List Vmarea) (k : Kmem) (b : Vmarea) (bs : List Vmarea)
      → All Proper rest
      → length (hits rest (lo - 1)) ≤ 1
      → k.free ≡ b ∷ bs
      → length rest + 1 ≤ fuel
      → Runs fuel seen rest k b bs
  loop-Runs fuel seen [] k b bs p one f len = (
    seen ++ cut lo n [],
    k,
    loop_plain lo n small fuel seen [] k tt (omega arith),
    inl f,
    cut-Leaves lo n small seen [],
  )
  loop-Runs zero seen (a ∷ rest) k b bs p one f len = absurd (omega arith)
  loop-Runs (suc fuel) seen (a ∷ rest) k b bs p one f len =
      elim (Case-cases lo n small (case_of lo (lo + n) a)) [
        | inl e ↦ loop_split fuel seen a rest k b bs e p.0 one f (omega arith)
        | inr e ↦
            let fewer : length (hits rest (lo - 1)) ≤ 1 = ground arith in
            let (t, k', run, left, l) =
              loop-Runs fuel (seen ++ pieces lo n a) rest k b bs p.1 fewer f (omega arith) in
            (
              t,
              k',
              remove_loop_step lo n small fuel seen a rest k
                    (visit_unsplit lo n small seen a rest k e)
                  ∙ run,
              left,
              step-Leaves lo n small seen a rest t l,
            )
      ]

-- What `vmmap_remove` leaves, area by area.
pub remove-hits :
    (areas : List Vmarea) (lo n : ℕ) (k : Kmem) (b : Vmarea) (bs : List Vmarea)
    → IsValid areas
    → lo + n < 4294967296
    → k.free ≡ b ∷ bs
    → (t : List Vmarea) × (k' : Kmem) × (vmmap_remove areas lo n k ≡ some (t, k'))
      × ((k'.free ≡ b ∷ bs) ⊎ (k'.free ≡ bs))
      × IsValid t
      × ((vfn : ℕ)
          → hits t vfn
            ≡ (if in_range lo n vfn then [] else map (piece_at lo n vfn) (hits areas vfn)))
unfolding vmmap_remove
remove-hits areas lo n k b bs v small f =
    let (t, k', run, left, l) =
      loop-Runs lo n small (length areas + length k.free) [] areas k b bs v.proper
        (v.disjoint (lo - 1)) f (rw f (omega arith)) in
    (
      t,
      k',
      run,
      left,
      record { proper = l.proper tt v.proper; disjoint = λ vfn. rw (found vfn l) (one vfn) },
      λ vfn. found vfn l,
    )
  where
    found :
        {t : List Vmarea} (vfn : ℕ)
        → Leaves lo n small [] areas t
        → hits t vfn ≡ (if in_range lo n vfn then [] else map (piece_at lo n vfn) (hits areas vfn))
    found vfn l = elim (Bool-cases (in_range lo n vfn)) [
      | inl e ↦ rw e (l.inside vfn e refl)
      | inr e ↦ rw e (l.outside vfn e (v.disjoint vfn))
    ]

    one :
        (vfn : ℕ)
        → length (if in_range lo n vfn then [] else map (piece_at lo n vfn) (hits areas vfn)) ≤ 1
    one vfn = ground (arith, v.disjoint vfn, length-map (piece_at lo n vfn) (hits areas vfn))

-- `vmmap_remove` on a valid map, for a range that does not wrap, with one area left in the slab: it
-- succeeds, the map is valid again, no page of the range is mapped any more, and every other page
-- has the protection, flags and object that it had (or none).
pub remove-lookup :
    (areas : List Vmarea) (lo n : ℕ) (k : Kmem) (b : Vmarea) (bs : List Vmarea)
    → IsValid areas
    → lo + n < 4294967296
    → k.free ≡ b ∷ bs
    → (t : List Vmarea) × (k' : Kmem) × (vmmap_remove areas lo n k ≡ some (t, k'))
      × IsValid t
      × ((vfn : ℕ) → terms_at t vfn ≡ (if in_range lo n vfn then none else terms_at areas vfn))
remove-lookup areas lo n k b bs v small f =
    let (t, k', run, left, valid, found) = remove-hits areas lo n k b bs v small f in
    (
      t,
      k',
      run,
      valid,
      λ vfn.
          rw (lookup-hits t vfn, lookup-hits areas vfn, found vfn)
            (ground (arith, last_or-piece_at lo n vfn small none none (hits areas vfn) refl)),
    )

-- Where a page outside the removed range was mapped, it still is, and to the same page of its
-- object, but for the upper half of an area that is split: that is mapped `lo - a.start` pages
-- too early in its object.
pub remove-object_page :
    (areas : List Vmarea) (lo n : ℕ) (k : Kmem) (b : Vmarea) (bs : List Vmarea) (vfn : ℕ)
    (a : Vmarea)
    → IsValid areas
    → lo + n < 4294967296
    → k.free ≡ b ∷ bs
    → in_range lo n vfn ≡ false
    → vmmap_lookup areas vfn ≡ some a
    → a.off + a.end < 4294967296
    → (t : List Vmarea) × (k' : Kmem) × (a' : Vmarea) × (vmmap_remove areas lo n k ≡ some (t, k'))
      × (vmmap_lookup t vfn ≡ some a')
      × (object_page a' vfn + (if ltb a.start lo && leb (lo + n) vfn then lo - a.start else 0)
          ≡ object_page a vfn)
remove-object_page areas lo n k b bs vfn a v small f out h fits =
    let (t, k', run, left, valid, found) = remove-hits areas lo n k b bs v small f in
    let (above, below) = lookup-holds areas vfn a h in
    (
      t,
      k',
      piece_at lo n vfn a,
      run,
      rw (lookup-hits t vfn, found vfn, out)
          (last_or-map lo n vfn small none (hits areas vfn)
            ∙ ap (Option.map (piece_at lo n vfn)) (sym (lookup-hits areas vfn) ∙ h)),
      object_page-piece_at lo n vfn small a out above below fits,
    )
