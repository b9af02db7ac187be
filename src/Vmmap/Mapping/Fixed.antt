-- ===== src/Vmmap/Mapping/Fixed.antt =====
-- `vmmap_map` (kernel/vm/vmmap.c) at a given page (`lopage` not 0): it replaces what was mapped
-- there, provided that `vmmap_is_range_empty` does not overlook an area.
use abmp.Common.{ℕ, ◌+◌, ◌%◌, ◌/◌, ◌≤◌, ◌<◌, ◌≡◌, ◌⊎◌, true, Option, some, List, if◌then◌else◌}
use abmp.Vmmap.{Vmarea, Kmem, Dir, pn_low, pn_high}
use abmp.Vmmap.Hits.{IsValid}
use abmp.Vmmap.Remove.Cut.{terms, terms_at, in_range}
use abmp.Vmmap.Mapping.{Backing, bound, vmmap_map}

module _ (env : Backing) (n prot flags off lo : ℕ) where
  -- The new area, over what the slab left in its object.
  abbrev pub new_area : Option ℕ → Kmem → Vmarea
  new_area stale k = record {
    start = lo;
    end = lo + n;
    off = off;
    prot = prot;
    flags = flags;
    mapped = true;
    obj = (bound env n prot flags off stale k).obj;
  }

  -- What the call leaves: the new area over the old map.
  abbrev pub Mapped : Dir → List Vmarea → Kmem → Type 0
  Mapped dir areas k =
      (stale : Option ℕ) × (k₀ : Kmem) × (t : List Vmarea) × (let r =
          bound env n prot flags off stale k₀ in
        vmmap_map env n prot flags off lo dir areas k ≡ some (r.status, t, r.kmem))
      × IsValid t
      × ((vfn : ℕ)
          → terms_at t vfn
            ≡ (if in_range lo n vfn then some (terms (new_area stale k₀)) else terms_at areas vfn))

  -- The arguments that pass the assertions.
  pub record Legal : Type 0 where
    pub low : pn_low ≤ lo
    pub pos : 0 < n
    pub high : lo + n ≤ pn_high
    pub prot_bits : prot < 8
    pub sharing : (flags % 2 ≡ 1) ⊎ ((flags / 2) % 2 ≡ 1)
    pub aligned : off % 4096 ≡ 0
