-- ===== src/Slab/Chain.antt =====
-- kernel/mm/slab.c: the free objects of a slab, and an object taken and given back.
use abmp.Common.{
  ℕ, suc, ◌+◌, ◌-◌, ◌≤◌, ◌≡◌, refl, ap, sym, inl, inr, Bool, true, false, ltb, some, List, [], ◌∷◌,
  ◌==◌, length, Bool-cases, arith, ◌∙◌,
}
use abmp.Sched.{update}
use abmp.Page.Buddy.{contains}
use abmp.Slab.Objects.{
  Slab, Bufctl, Heap, open_slab, take_obj, alloc_rounds, slab_obj_alloc, slab_obj_free,
}

-- The free list of a slab from the address `a` on: different free objects with their red zones.
abbrev pub Chain : (ℕ → Bufctl) → (ℕ → Bool) → ℕ → List ℕ → Type 0
Chain b z a [] = a ≡ 0
Chain b z a (o ∷ os) =
    (a ≡ o)
    × ((1 ≤ o)
        × (((b o).is_free ≡ true)
            × ((z o ≡ true) × ((contains o os ≡ false) × Chain b z (b o).word os))))

-- A slab of `n` objects, of which `os` are free.
abbrev pub SlabFree : ℕ → Heap → ℕ → List ℕ → Type 0
SlabFree n h s os = Chain h.bufctl h.intact (h.slab s).free os × ((h.slab s).inuse + length os ≡ n)

update-Chain :
    (o a : ℕ) (os : List ℕ) (v : Bufctl) (b : ℕ → Bufctl) (z : ℕ → Bool)
    → contains o os ≡ false
    → Chain b z a os
    → Chain (update b o v) z a os
update-Chain o a [] v b z h k = k
update-Chain o a (x ∷ os) v b z h (e, (p, (f, (i, (d, c))))) =
    let n : (o == x) ≡ false = ground arith in
    let h' : contains o os ≡ false = ground arith in
    rw n (e, (p, (f, (i, (d, update-Chain o (b x).word os v b z h' c)))))

-- The same heap, but for the order of its updates.
abbrev pub Alike : Heap → Heap → Type 0
Alike h h' =
    ((i : ℕ) → h'.slab i ≡ h.slab i)
    × (((i : ℕ) → h'.bufctl i ≡ h.bufctl i)
        × ((h'.intact ≡ h.intact)
            × ((h'.allocator ≡ h.allocator)
                × ((h'.allocators ≡ h.allocators) × (h'.pages ≡ h.pages)))))

-- What an allocation leaves: the object is in use and leads back to its slab.
abbrev pub Given : ℕ → ℕ → ℕ → List ℕ → Heap → Type 0
Given n s o os h' =
    SlabFree n h' s os
    × (((h'.bufctl o).is_free ≡ false) × (((h'.bufctl o).word ≡ s) × (h'.intact o ≡ true)))

-- The state after `take_obj`, and after `slab_obj_free` of the same object.
abbrev taken : ℕ → ℕ → Heap → Heap
taken s o h = record h {
  slab =
      update h.slab s
        (record (h.slab s) { inuse = suc (h.slab s).inuse; free = (h.bufctl o).word });
  bufctl = update h.bufctl o (record { word = s; is_free = false });
}

abbrev put_back : ℕ → ℕ → Heap → Heap
put_back s o h = record h {
  slab = update h.slab s (record (h.slab s) { inuse = (h.slab s).inuse - 1; free = o });
  bufctl = update h.bufctl o (record { word = (h.slab s).free; is_free = true });
}

pub update_self : {A : Type 0} (f : ℕ → A) (i : ℕ) (v : A) → update f i v i ≡ v
update_self f i v = let g : (i == i) ≡ true = ground arith in rw g refl

-- An entry written twice, back to what it was.
update_back :
    {A : Type 0} (f : ℕ → A) (i : ℕ) (v w : A)
    → w ≡ f i
    → (j : ℕ) → update (update f i v) i w j ≡ f j
update_back f i v w e j = elim (Bool-cases (i == j)) [
  | inl g ↦ let z : i ≡ j = ground arith in rw g (e ∙ ap f z)
  | inr g ↦ rw g refl
]

slab_same : (x : Slab) (i f : ℕ) → i ≡ x.inuse → f ≡ x.free → record x { inuse = i; free = f } ≡ x
slab_same x i f e k = rw (e, k) refl

bufctl_same : (b : Bufctl) (t : Bool) → t ≡ b.is_free → record b { is_free = t } ≡ b
bufctl_same b t e = rw e refl

taken-put_back :
    (s o : ℕ) (h : Heap)
    → (h.slab s).free ≡ o
    → (h.bufctl o).is_free ≡ true
    → Alike h (put_back s o (taken s o h))
taken-put_back s o h a i =
    let x : Slab = record (h.slab s) { inuse = suc (h.slab s).inuse; free = (h.bufctl o).word } in
    let u = update_self h.slab s x in
    let e =
      ap (λ (z : Slab). record z { inuse = z.inuse - 1; free = o }) u
      ∙ slab_same (h.slab s) (x.inuse - 1) o (omega arith) (sym a) in
    let e' =
      ap (λ (z : Slab). record { word = z.free; is_free = true }) u
      ∙ bufctl_same (h.bufctl o) true (sym i) in
    (
      update_back h.slab s x
          (record (update h.slab s x s) { inuse = (update h.slab s x s).inuse - 1; free = o }) e,
      (
        update_back h.bufctl o (record { word = s; is_free = false })
            (record { word = (update h.slab s x s).free; is_free = true }) e',
        (refl, (refl, (refl, refl))),
      ),
    )

free-taken :
    (s o : ℕ) (h : Heap)
    → h.intact o ≡ true
    → slab_obj_free (o + 4) (taken s o h) ≡ some (put_back s o (taken s o h))
unfolding slab_obj_free
free-taken s o h z =
    let m : o + 4 - 4 ≡ o = omega arith in
    let g : (o == o) ≡ true = ground arith in rw (m, g, z) refl

pub alloc_rounds-Given :
    (m c s o : ℕ) (os : List ℕ) (h : Heap)
    → open_slab (h.allocator c).nobjs h.slab (h.allocator c).slabs ≡ some s
    → SlabFree (h.allocator c).nobjs h s (o ∷ os)
    → (h' : Heap) × ((alloc_rounds (suc m) c h ≡ some (some (o + 4), h'))
        × (Given (h.allocator c).nobjs s o os h'
            × ((h'' : Heap) × ((slab_obj_free (o + 4) h' ≡ some h'') × Alike h h''))))
unfolding alloc_rounds take_obj
alloc_rounds-Given m c s o os h f ((a, (p, (i, (z, (d, k))))), l) =
    let t : ltb (h.slab s).inuse (h.allocator c).nobjs ≡ true = ground arith in
    let u = update_self h.bufctl o (record { word = s; is_free = false }) in
    let w =
      update_self h.slab s
        (record (h.slab s) { inuse = suc (h.slab s).inuse; free = (h.bufctl o).word }) in
    let y =
      update-Chain o (h.bufctl o).word os (record { word = s; is_free = false }) h.bufctl h.intact d
        k in
    (
      taken s o h,
      (
        rw (alloc_rounds, f, t, take_obj, a, z) refl,
        (
          (rw w (y, omega (arith, l)), (rw u refl, (rw u refl, z))),
          (put_back s o (taken s o h), (free-taken s o h z, taken-put_back s o h a i)),
        ),
      ),
    )

-- Where the first slab that is not full has a chain of free objects with their red zones, and its count is
-- right, `slab_obj_alloc` gives the head of the chain, past the red zone: the object is in use and
-- leads to its slab, the others stay free. `slab_obj_free` of that address then gives the old heap.
pub obj_alloc-Given :
    (c s o : ℕ) (os : List ℕ) (h : Heap)
    → open_slab (h.allocator c).nobjs h.slab (h.allocator c).slabs ≡ some s
    → SlabFree (h.allocator c).nobjs h s (o ∷ os)
    → (h' : Heap) × ((slab_obj_alloc c h ≡ some (some (o + 4), h'))
        × (Given (h.allocator c).nobjs s o os h'
            × ((h'' : Heap) × ((slab_obj_free (o + 4) h' ≡ some h'') × Alike h h''))))
unfolding slab_obj_alloc
obj_alloc-Given c s o os h f g = alloc_rounds-Given 1 c s o os h f g
