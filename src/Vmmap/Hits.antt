-- ===== src/Vmmap/Hits.antt =====
-- Valid maps (kernel/vm/vmmap.c): areas in user memory that do not overlap, in any order; what
-- `vmmap_lookup` finds in one, and `vmmap_insert` into one.
use abmp.Common.{
  ℕ, ◌≤◌, ◌<◌, ◌≡◌, refl, sym, ap, ◌∙◌, ◌⊎◌, inl, inr, ◌&&◌, Bool, false, true, Option, some, none,
  List, [], ◌∷◌, ◌++◌, append-nil, arith, ltb, leb, if◌then◌else◌, All, Bool-cases, length,
}
use abmp.Vmmap.{
  Vmarea, Kmem, pn_low, pn_high, vmarea_alloc, starts_later, before_last, place, vmmap_insert,
  lookup_from, vmmap_lookup,
}

abbrev pub holds : Vmarea → ℕ → Bool
holds a vfn = leb a.start vfn && ltb vfn a.end

-- The areas that hold a page, in the order of the list.
abbrev pub hits : List Vmarea → ℕ → List Vmarea
hits [] vfn = []
hits (a ∷ rest) vfn = if holds a vfn then a ∷ hits rest vfn else hits rest vfn

abbrev pub Proper : Vmarea → Type 0
Proper a = (pn_low ≤ a.start) × (a.start < a.end) × (a.end ≤ pn_high)

-- Areas of user memory that are not empty, and of which no two hold one page.
pub record IsValid (areas : List Vmarea) : Type 0 where
  pub proper : All Proper areas
  pub disjoint : (vfn : ℕ) → length (hits areas vfn) ≤ 1

-- No area holds a page of [lo, hi).
abbrev pub Misses : List Vmarea → ℕ → ℕ → Type 0
Misses areas lo hi = All (λ (a : Vmarea). (hi ≤ a.start) ⊎ (a.end ≤ lo)) areas

pub Misses-hits :
    (areas : List Vmarea) (lo hi vfn : ℕ)
    → Misses areas lo hi
    → lo ≤ vfn
    → vfn < hi
    → hits areas vfn ≡ []
Misses-hits [] lo hi vfn m h k = refl
Misses-hits (a ∷ rest) lo hi vfn m h k = ground (arith, Misses-hits rest lo hi vfn m.1)

pub hits-append : (xs ys : List Vmarea) (vfn : ℕ) → hits (xs ++ ys) vfn ≡ hits xs vfn ++ hits ys vfn
hits-append [] ys vfn = refl
hits-append (x ∷ xs) ys vfn = ground (arith, hits-append xs ys vfn)

-- An insertion somewhere: `t` is `areas` with `new` put in.
pub record Inserted (new : Vmarea) (areas t : List Vmarea) : Type 0 where
  pub front : List Vmarea
  pub back : List Vmarea
  pub before : areas ≡ front ++ back
  pub after : t ≡ front ++ (new ∷ back)

pub before_last-Inserted :
    (new : Vmarea) (areas : List Vmarea) → Inserted new areas (before_last new areas)
unfolding before_last
before_last-Inserted new [] = record { front = []; back = []; before = refl; after = refl }
before_last-Inserted new (a ∷ []) = record {
  front = [];
  back = a ∷ [];
  before = refl;
  after = refl;
}
before_last-Inserted new (a ∷ b ∷ rest) =
    let i = before_last-Inserted new (b ∷ rest) in
    record {
      front = a ∷ i.front;
      back = i.back;
      before = ap (λ t. a ∷ t) i.before;
      after = ap (λ t. a ∷ t) i.after;
    }

pub tail-Inserted : (new : Vmarea) (areas : List Vmarea) → Inserted new areas (areas ++ (new ∷ []))
tail-Inserted new areas = record {
  front = areas;
  back = [];
  before = sym (append-nil areas);
  after = refl;
}

pub place-Inserted : (new : Vmarea) (areas : List Vmarea) → Inserted new areas (place new areas)
unfolding place
place-Inserted new [] = record { front = []; back = []; before = refl; after = refl }
place-Inserted new (a ∷ rest) = elim (Bool-cases (starts_later new (a ∷ rest))) [
  | inl e ↦ rw e (before_last-Inserted new (a ∷ rest))
  | inr e ↦ rw e (tail-Inserted new (a ∷ rest))
]

module _ {new : Vmarea} {areas t : List Vmarea} (i : Inserted new areas t) where
  pub Inserted-All {ℓ} : (P : Vmarea → Type ℓ) → P new → All P areas → All P t
  Inserted-All P p all = rw i.after (go i.front (rw i.before at all))
    where
      go : (front : List Vmarea) → All P (front ++ i.back) → All P (front ++ (new ∷ i.back))
      go [] h = (p, h)
      go (x ∷ xs) h = (h.0, go xs h.1)

  pub Inserted-hits_out : (vfn : ℕ) → holds new vfn ≡ false → hits t vfn ≡ hits areas vfn
  Inserted-hits_out vfn out =
      rw (i.after, i.before, hits-append i.front (new ∷ i.back) vfn, hits-append i.front i.back vfn)
        (ground arith)

  pub Inserted-hits_in :
      (vfn : ℕ) → holds new vfn ≡ true → hits areas vfn ≡ [] → hits t vfn ≡ new ∷ []
  Inserted-hits_in vfn held none_there =
      let parts : hits i.front vfn ++ hits i.back vfn ≡ [] =
        sym (hits-append i.front i.back vfn) ∙ ap (λ l. hits l vfn) (sym i.before) ∙ none_there in
      rw (i.after, hits-append i.front (new ∷ i.back) vfn)
        (both_empty (hits i.front vfn) (hits i.back vfn) parts)
    where
      both_empty :
          (xs ys : List Vmarea)
          → xs ++ ys ≡ []
          → xs ++ (if holds new vfn then new ∷ ys else ys) ≡ new ∷ []
      both_empty [] ys e = ground arith
      both_empty (x ∷ xs) ys e = cc

  pub Inserted-hits :
      Misses areas new.start new.end
      → (vfn : ℕ) → hits t vfn ≡ (if holds new vfn then new ∷ [] else hits areas vfn)
  Inserted-hits m vfn = elim (Bool-cases (holds new vfn)) [
    | inl e ↦ rw e (
        Inserted-hits_in vfn e
          (Misses-hits areas new.start new.end vfn m (ground arith) (ground arith)))
    | inr e ↦ rw e (Inserted-hits_out vfn e)
  ]

  pub Inserted-IsValid : Proper new → IsValid areas → Misses areas new.start new.end → IsValid t
  Inserted-IsValid p v m = record {
    proper = Inserted-All Proper p v.proper;
    disjoint = λ vfn. rw (Inserted-hits m vfn) (ground (arith, v.disjoint vfn));
  }

-- The last of a list, or what was found before it.
abbrev pub last_or : Option Vmarea → List Vmarea → Option Vmarea
last_or found [] = found
last_or found (a ∷ rest) = last_or (some a) rest

lookup_from-hits :
    (found : Option Vmarea) (areas : List Vmarea) (vfn : ℕ)
    → lookup_from found areas vfn ≡ last_or found (hits areas vfn)
unfolding lookup_from
lookup_from-hits found [] vfn = refl
lookup_from-hits found (a ∷ rest) vfn =
    ground (arith, lookup_from-hits (some a) rest vfn, lookup_from-hits found rest vfn)

-- `vmmap_lookup` finds the last area that holds the page, and NULL exactly where none does.
pub lookup-hits :
    (areas : List Vmarea) (vfn : ℕ) → vmmap_lookup areas vfn ≡ last_or none (hits areas vfn)
unfolding vmmap_lookup
lookup-hits areas vfn = lookup_from-hits none areas vfn

-- `vmmap_insert` of a fresh area of user memory that overlaps no other succeeds; the areas are
-- proper and free of overlaps again; a lookup inside the new area finds it, with its `vma_vmmap`
-- set, and any other lookup finds what it found before.
pub insert-lookup :
    (areas : List Vmarea) (new : Vmarea)
    → IsValid areas
    → new.mapped ≡ false
    → Proper new
    → Misses areas new.start new.end
    → (t : List Vmarea) × (vmmap_insert areas new ≡ some t)
      × IsValid t
      × ((vfn : ℕ)
          → vmmap_lookup t vfn ≡ (
              if holds new vfn
              then some (record new { mapped = true })
              else vmmap_lookup areas vfn))
unfolding vmmap_insert
insert-lookup areas new v fresh p m =
    let new' : Vmarea = record new { mapped = true } in
    let i = place-Inserted new' areas in
    (
      place new' areas,
      ground arith,
      Inserted-IsValid i p v m,
      λ vfn.
          rw (lookup-hits (place new' areas) vfn, lookup-hits areas vfn, Inserted-hits i m vfn)
            (ground arith),
    )

pub last_or-mem :
    (areas : List Vmarea) (vfn : ℕ) (found : Option Vmarea) (a : Vmarea)
    → last_or found (hits areas vfn) ≡ some a
    → (found ≡ some a) ⊎ (holds a vfn ≡ true)
last_or-mem [] vfn found a h = inl h
last_or-mem (x ∷ rest) vfn found a h = elim (Bool-cases (holds x vfn)) [
  | inl e ↦ elim (last_or-mem rest vfn (some x) a (ground arith)) [
    | inl same ↦ let same' : x ≡ a = cc in inr (rw (← same') e)
    | inr r ↦ inr r
  ]
  | inr e ↦ last_or-mem rest vfn found a (ground arith)
]

pub lookup-holds :
    (areas : List Vmarea) (vfn : ℕ) (a : Vmarea)
    → vmmap_lookup areas vfn ≡ some a
    → (a.start ≤ vfn) × (vfn < a.end)
lookup-holds areas vfn a h = elim (last_or-mem areas vfn none a (sym (lookup-hits areas vfn) ∙ h)) [
  | inl e ↦ cc
  | inr e ↦ (ground arith, ground arith)
]

pub vmarea_alloc-cons :
    (k : Kmem) (b : Vmarea) (bs : List Vmarea)
    → k.free ≡ b ∷ bs
    → vmarea_alloc k ≡ some (record b { mapped = false }, record k { free = bs })
unfolding vmarea_alloc
vmarea_alloc-cons k b bs f = rw f
