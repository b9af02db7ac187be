-- ===== src/Slab/Grow.antt =====
-- kernel/mm/slab.c: the objects of a new slab.
use abmp.Common.{
  ℕ, zero, suc, ◌+◌, ◌-◌, ◌*◌, ◌^◌, ◌≤◌, ◌<◌, ◌≡◌, refl, ap, sym, subst, inl, inr, Bool, true,
  false, none, some, List, [], ◌∷◌, ◌==◌, length, Bool-cases, arith, ◌∙◌,
}
use abmp.Sched.{update}
use abmp.Page.{Pages, page_alloc_n}
use abmp.Page.Buddy.{contains}
use abmp.Slab.Objects.{
  Slab, Bufctl, Allocator, Heap, open_slab, link_objs, set_redzones, add_slab, slab_allocator_grow,
  alloc_rounds, slab_obj_alloc,
}
use abmp.Slab.Chain.{Chain, SlabFree, Given, update_self, alloc_rounds-Given}

-- `n` objects from the address `a` on.
abbrev pub objects : ℕ → ℕ → ℕ → List ℕ
objects zero size a = []
objects (suc n) size a = a ∷ objects n size (a + (size + 8))

objects_before : (n size a o : ℕ) → o < a → contains o (objects n size a) ≡ false
objects_before zero size a o h = refl
objects_before (suc n) size a o h =
    let e : (a == o) ≡ false = ground arith in
    rw e (objects_before n size (a + (size + 8)) o (omega arith))

length-objects : (n size a : ℕ) → length (objects n size a) ≡ n
length-objects zero size a = refl
length-objects (suc n) size a = ap suc (length-objects n size (a + (size + 8)))

set_redzones_keep : (n size a o : ℕ) (f : ℕ → Bool) → f o ≡ true → set_redzones n size a f o ≡ true
unfolding set_redzones
set_redzones_keep zero size a o f h = h
set_redzones_keep (suc n) size a o f h =
    set_redzones_keep n size (a + (size + 8)) o (update f a true) (ground arith)

set_redzones-objects :
    (n size a o : ℕ) (f : ℕ → Bool)
    → contains o (objects n size a) ≡ true
    → set_redzones n size a f o ≡ true
unfolding set_redzones
set_redzones-objects zero size a o f h = cc
set_redzones-objects (suc n) size a o f h = elim (Bool-cases (a == o)) [
  | inl e ↦ set_redzones_keep n size (a + (size + 8)) o (update f a true) (rw e refl)
  | inr e ↦ set_redzones-objects n size (a + (size + 8)) o (update f a true) (ground arith)
]

-- The bufctls of a new slab: the last one ends the list.
abbrev linked : ℕ → ℕ → ℕ → (ℕ → Bufctl) → ℕ → Bufctl
linked k size a b =
    update (link_objs k size a b).1 (link_objs k size a b).0 (record { word = 0; is_free = true })

link_objs_before : (k size a j : ℕ) (b : ℕ → Bufctl) → j < a → linked k size a b j ≡ b j
unfolding link_objs
link_objs_before zero size a j b h = let e : (a == j) ≡ false = ground arith in rw e refl
link_objs_before (suc k) size a j b h =
    let e : (a == j) ≡ false = ground arith in
    link_objs_before k size (a + (size + 8)) j
      (update b a (record { word = a + (size + 8); is_free = true })) (omega arith)
    ∙ rw e refl

link_objs-Chain :
    (k size a : ℕ) (b : ℕ → Bufctl) (z : ℕ → Bool)
    → 1 ≤ a
    → ((o : ℕ) → contains o (objects (suc k) size a) ≡ true → z o ≡ true)
    → Chain (linked k size a b) z a (objects (suc k) size a)
unfolding link_objs
link_objs-Chain zero size a b z p h =
    let u = update_self b a (record { word = 0; is_free = true }) in
    (refl, (p, (rw u refl, (h a (ground arith), (refl, rw u refl)))))
link_objs-Chain (suc k) size a b z p h =
    let v : Bufctl = record { word = a + (size + 8); is_free = true } in
    let a' = a + (size + 8) in
    let w = link_objs_before k size a' a (update b a v) (omega arith) ∙ update_self b a v in
    (
      refl,
      (
        p,
        (
          ap (λ (x : Bufctl). x.is_free) w,
          (
            h a (ground arith),
            (
              objects_before (suc k) size a' a (omega arith),
              subst (λ x. Chain (linked k size a' (update b a v)) z x (objects (suc k) size a'))
                  (sym (ap (λ (x : Bufctl). x.word) w))
                  (link_objs-Chain k size a' (update b a v) z (omega arith)
                    (λ o c. h o (ground arith))),
            ),
          ),
        ),
      ),
    )

-- The address of the slab itself, after its objects.
abbrev pub header : ℕ → ℕ → Heap → ℕ
header c a h =
    let x = h.allocator c in (link_objs (x.nobjs - 1) x.objsize a h.bufctl).0 + (x.objsize + 8)

-- A new slab: all its objects are free, and it is the first that is not full.
pub add_slab-SlabFree :
    (c a : ℕ) (h : Heap)
    → 1 ≤ a
    → 1 ≤ (h.allocator c).nobjs
    → SlabFree
        (h.allocator c).nobjs
        (add_slab c a h)
        (header c a h)
        (objects (suc ((h.allocator c).nobjs - 1)) (h.allocator c).objsize a)
unfolding add_slab
add_slab-SlabFree c a h p l =
    let x = h.allocator c in
    let s = header c a h in
    let u = update_self h.slab s (record { inuse = 0; free = a; addr = a }) in
    let n : suc (x.nobjs - 1) ≡ x.nobjs = omega arith in
    let z : (o : ℕ)
        → contains o (objects (suc (x.nobjs - 1)) x.objsize a) ≡ true
        → set_redzones x.nobjs x.objsize a h.intact o ≡ true =
      λ o k.
        set_redzones-objects x.nobjs x.objsize a o h.intact
          (subst (λ m. contains o (objects m x.objsize a) ≡ true) n k) in
    (
      rw u (
          link_objs-Chain (x.nobjs - 1) x.objsize a h.bufctl
            (set_redzones x.nobjs x.objsize a h.intact) p z),
      omega (
        arith,
        ap (λ (z : Slab). z.inuse) u,
        length-objects (x.nobjs - 1) x.objsize (a + (x.objsize + 8)),
        n,
      ),
    )

pub add_slab_open :
    (c a : ℕ) (h : Heap)
    → 1 ≤ (h.allocator c).nobjs
    → open_slab (h.allocator c).nobjs (add_slab c a h).slab ((add_slab c a h).allocator c).slabs
      ≡ some (header c a h)
unfolding add_slab
add_slab_open c a h l =
    let s = header c a h in
    let u = update_self h.slab s (record { inuse = 0; free = a; addr = a }) in
    let w =
      update_self h.allocator c (record (h.allocator c) { slabs = s ∷ (h.allocator c).slabs }) in
    let t : (0 == (h.allocator c).nobjs) ≡ false = ground arith in rw (w, u, t) refl

add_slab-nobjs : (c a : ℕ) (h : Heap) → ((add_slab c a h).allocator c).nobjs ≡ (h.allocator c).nobjs
unfolding add_slab
add_slab-nobjs c a h =
    ap (λ (z : Allocator). z.nobjs)
      (update_self h.allocator c
        (record (h.allocator c) { slabs = header c a h ∷ (h.allocator c).slabs }))

-- Where no slab has a free object and `page_alloc_n` gives pages, not at the address 0, `slab_obj_alloc`
-- makes them a slab and gives the first of its objects; the others are free.
pub obj_alloc-grow :
    (c page : ℕ) (p : Pages) (h : Heap)
    → 1 ≤ (h.allocator c).nobjs
    → 1 ≤ page
    → open_slab (h.allocator c).nobjs h.slab (h.allocator c).slabs ≡ none
    → page_alloc_n (λ q. q) (2 ^ (h.allocator c).order) h.pages ≡ some (some page, p)
    → (h' : Heap) × ((slab_obj_alloc c h ≡ some (some (page * 4096 + 4), h'))
        × Given
            (h.allocator c).nobjs
            (header c (page * 4096) h)
            (page * 4096)
            (objects
              ((h.allocator c).nobjs - 1)
              (h.allocator c).objsize
              (page * 4096 + ((h.allocator c).objsize + 8)))
            h')
unfolding slab_obj_alloc slab_allocator_grow alloc_rounds
obj_alloc-grow c page p h l m e f =
    let h₀ : Heap = record h { pages = p } in
    let a = page * 4096 in
    let h₁ = add_slab c a h₀ in
    let s = header c a h₀ in
    let x = h.allocator c in
    let os = objects (x.nobjs - 1) x.objsize (a + (x.objsize + 8)) in
    let n = add_slab-nobjs c a h₀ in
    let g = add_slab_open c a h₀ l in
    let k = add_slab-SlabFree c a h₀ (omega arith) l in
    let (h', (q, (w, _))) =
      alloc_rounds-Given 0 c s a os h₁
        (subst (λ z. open_slab z h₁.slab (h₁.allocator c).slabs ≡ some s) (sym n) g)
        (subst (λ z. SlabFree z h₁ s (a ∷ os)) (sym n) k) in
    let t : (page == 0) ≡ false = ground arith in
    (
      h',
      (
        rw (slab_obj_alloc, alloc_rounds, e, slab_allocator_grow, f, t) q,
        subst (λ z. Given z s a os h') n w,
      ),
    )
