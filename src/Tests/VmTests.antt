-- ===== src/Tests/VmTests.antt =====
-- The address space: tests, and the theorems at concrete inputs.
use abmp.Common.{
  ℕ, ◌+◌, ◌-◌, ◌≤◌, ◌≡◌, refl, inl, inr, ◌&&◌, false, true, none, some, List, [], ◌∷◌, arith, ltb,
  leb, if◌then◌else◌, map, length,
}
use abmp.Vmmap.{
  Vmarea, Kmem, pn_high, vmarea_alloc, vmmap_insert, vmmap_lookup, vmmap_is_range_empty,
  vmmap_find_range, place,
}
use abmp.Vmmap.Hits.{IsValid, Misses, holds, insert-lookup}
use abmp.Vmmap.Range.{find_range_lohi-last, find_range_lohi-Misses}
use abmp.Vmmap.Remove.{vmmap_remove}
use abmp.Vmmap.Remove.Cut.{terms_at, in_range, object_page}
use abmp.Vmmap.Remove.Unmap.{remove-lookup, remove-object_page}
use abmp.Vmmap.Mapping.{Backing, maps, vmmap_clone}
use abmp.Vmmap.Mapping.Clone.{shape, clone-shape}

abbrev code : Vmarea
code = record {
  start = 0x500;
  end = 0x510;
  off = 3;
  prot = 5;
  flags = 2;
  mapped = true;
  obj = some 7;
}

abbrev stack : Vmarea
stack = record {
  start = 0x800;
  end = 0x900;
  off = 0;
  prot = 3;
  flags = 2;
  mapped = true;
  obj = none;
}

abbrev blank : Vmarea
blank = record { start = 0; end = 0; off = 0; prot = 0; flags = 0; mapped = false; obj = none }

abbrev fresh : Vmarea
fresh = record blank { start = 0x600; end = 0x700 }

-- Pages 0x400 to 0x410, before both areas.
abbrev early : Vmarea
early = record code { start = 0x400; end = 0x410 }

-- Where the empty map's downward search puts sixteen pages.
abbrev past_end : Vmarea
past_end = record blank { start = 0xbfff1; end = 0xc0001 }

abbrev two_areas : List Vmarea
two_areas = code ∷ stack ∷ []

abbrev kmem : Kmem
kmem = record { free = blank ∷ []; refs = []; shadows = [] }

abbrev two_free : Kmem
two_free = record kmem { free = blank ∷ blank ∷ [] }

two_areas-IsValid : IsValid two_areas
two_areas-IsValid = record { proper = omega arith; disjoint = λ vfn. ground arith }

insert-lookup_example :
    (t : List Vmarea) × (vmmap_insert two_areas fresh ≡ some t)
    × IsValid t
    × ((vfn : ℕ)
        → vmmap_lookup t vfn ≡ (
            if holds fresh vfn
            then some (record fresh { mapped = true })
            else vmmap_lookup two_areas vfn))
insert-lookup_example =
    insert-lookup two_areas fresh two_areas-IsValid refl (omega arith)
      (inr (omega arith), (inl (omega arith), tt))

find_range_lohi-last_example : (0x901 ≡ stack.end + 1) × (0x905 ≤ pn_high)
find_range_lohi-last_example =
    find_range_lohi-last (code ∷ []) stack 4 0x901 (omega arith) (omega arith) (omega arith)
      (unfold vmmap_find_range vmmap_is_range_empty in refl)

find_range_lohi-Misses_example : Misses two_areas 0x901 0x905
find_range_lohi-Misses_example =
    find_range_lohi-Misses (code ∷ []) stack 4 0x901 0 (omega arith) (omega arith) (omega arith)
      (omega arith) (unfold vmmap_find_range vmmap_is_range_empty in refl)

remove-lookup_example :
    (t : List Vmarea) × (k' : Kmem) × (vmmap_remove two_areas 0x504 4 kmem ≡ some (t, k'))
    × IsValid t
    × ((vfn : ℕ) → terms_at t vfn ≡ (if in_range 0x504 4 vfn then none else terms_at two_areas vfn))
remove-lookup_example =
    remove-lookup two_areas 0x504 4 kmem blank [] two_areas-IsValid (omega arith) refl

remove-object_page_example :
    (t : List Vmarea) × (k' : Kmem) × (a' : Vmarea) × (vmmap_remove two_areas 0x504 4 kmem
      ≡ some (t, k'))
    × (vmmap_lookup t 0x50a ≡ some a')
    × (object_page a' 0x50a + (if ltb 0x500 0x504 && leb 0x508 0x50a then 0x504 - 0x500 else 0)
        ≡ object_page code 0x50a)
remove-object_page_example =
    remove-object_page two_areas 0x504 4 kmem blank [] 0x50a code two_areas-IsValid (omega arith)
      refl refl (unfold vmmap_lookup in refl) (omega arith)

clone-shape_example :
    (t : List Vmarea) × (k' : Kmem) × (vmmap_clone true two_areas two_free ≡ some (some t, k'))
    × (map shape t ≡ map shape two_areas)
    × (length k'.free + 2 ≡ 2)
clone-shape_example = clone-shape two_areas two_free (omega arith) (omega arith) (omega arith)

abbrev file_backing : Backing
file_backing = record { file = some (maps 40); shadow = some 41; anon = some 42 }

-- The slab is empty: `vmmap_clone` returns NULL.
clone_out_of_memory :
    vmmap_clone true two_areas kmem ≡ some (none, record { free = []; refs = []; shadows = [] })
unfolding vmmap_clone vmmap_insert vmarea_alloc place
clone_out_of_memory = refl
