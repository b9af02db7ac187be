-- ===== src/Vmmap/Remove/Loop.antt =====
-- The loop of `vmmap_remove` (kernel/vm/vmmap.c) over areas that do not overlap: what it leaves of
-- them, whatever the order of the list, and that its fuel is enough.
use abmp.Common.{
  ℕ, zero, suc, ◌+◌, ◌-◌, ◌≤◌, ◌<◌, ◌≡◌, ◌≢◌, refl, ap, ◌∙◌, true, Option, some, none, List, [],
  ◌∷◌, ◌++◌, arith, All, length, append-nil, append_assoc, ◌⊎◌, inl, inr, Bool-cases, length-append,
}
use abmp.Vmmap.{Vmarea, Kmem, insert_asserts, starts_later}
use abmp.Vmmap.Hits.{
  holds, hits, Proper, Inserted, before_last-Inserted, tail-Inserted, place-Inserted,
  vmarea_alloc-cons,
}
use abmp.Vmmap.Remove.{
  Case, case_of, split, shorten, advance, unlink, keep, ref_obj, place_behind, visit, remove_loop,
}
use abmp.Vmmap.Remove.Cut.{pieces, cut, lower_piece, upper_piece}

-- Where an insertion during the iteration puts the new area: before the cursor, or behind it.
abbrev pub Behind : Vmarea → List Vmarea → List Vmarea → List Vmarea × List Vmarea → Type 0
Behind new seen rest (seen', rest') =
    (Inserted new seen seen' × (rest' ≡ rest)) ⊎ ((seen' ≡ seen) × Inserted new rest rest')

pub place_behind-Behind :
    (new : Vmarea) (seen rest : List Vmarea) → Behind new seen rest (place_behind new seen rest)
unfolding place_behind
place_behind-Behind new seen [] = inl (place-Inserted new seen, refl)
place_behind-Behind new seen (a ∷ []) = elim (Bool-cases (starts_later new (seen ++ (a ∷ [])))) [
  | inl e ↦ rw e (inl (tail-Inserted new seen, refl))
  | inr e ↦ rw e (inr (refl, tail-Inserted new (a ∷ [])))
]
place_behind-Behind new seen (a ∷ b ∷ rest) =
    elim (Bool-cases (starts_later new (seen ++ (a ∷ b ∷ rest)))) [
      | inl e ↦ rw e (inr (refl, before_last-Inserted new (a ∷ b ∷ rest)))
      | inr e ↦ rw e (inr (refl, tail-Inserted new (a ∷ b ∷ rest)))
    ]

pub length-Behind :
    (new : Vmarea) (seen rest seen' rest' : List Vmarea)
    → Behind new seen rest (seen', rest')
    → length rest' ≤ length rest + 1
length-Behind new seen rest seen' rest' (inl (i, e)) = rw e (omega arith)
length-Behind new seen rest seen' rest' (inr (e, i)) = omega (
  arith,
  ap length i.before,
  ap length i.after,
  length-append i.front i.back,
  length-append i.front (new ∷ i.back),
)

module _ (lo n : ℕ) (small : lo + n < 4294967296) where
  -- An area that is not split leaves its pieces before the cursor.
  pub visit_unsplit :
      (seen : List Vmarea) (a : Vmarea) (rest : List Vmarea) (k : Kmem)
      → case_of lo (lo + n) a ≢ split
      → visit lo n seen a rest k ≡ some (seen ++ pieces lo n a, rest, k)
  unfolding visit pieces
  visit_unsplit seen a rest k h = ground (arith, append-nil seen)

  -- An area that is split leaves its lower part, and its upper part goes into the list.
  pub visit_split :
      (seen : List Vmarea) (a : Vmarea) (rest : List Vmarea) (k : Kmem) (b : Vmarea)
      (bs : List Vmarea)
      → case_of lo (lo + n) a ≡ split
      → k.free ≡ b ∷ bs
      → Proper a
      → let (seen', rest') =
          place_behind (upper_piece lo n a) (seen ++ (lower_piece lo n a ∷ [])) rest in
        visit lo n seen a rest k ≡ some (seen', rest', ref_obj a.obj (record k { free = bs }))
  unfolding visit insert_asserts
  visit_split seen a rest k b bs e f p =
      let cuts : (a.start < lo) × (lo + n < a.end) = ground arith in
      ground (arith, vmarea_alloc-cons k b bs f)

  pub remove_loop_step :
      (fuel : ℕ) (seen : List Vmarea) (a : Vmarea) (rest : List Vmarea) (k : Kmem)
      {seen' rest' : List Vmarea} {k' : Kmem}
      → visit lo n seen a rest k ≡ some (seen', rest', k')
      → remove_loop lo n (suc fuel) seen (a ∷ rest) k ≡ remove_loop lo n fuel seen' rest' k'
  unfolding remove_loop
  remove_loop_step fuel seen a rest k e = rw (e, remove_loop)

  abbrev pub Unsplit : List Vmarea → Type 0
  Unsplit = All (λ (a : Vmarea). case_of lo (lo + n) a ≢ split)

  -- With nothing to split the loop is the cut.
  pub loop_plain :
      (fuel : ℕ) (seen rest : List Vmarea) (k : Kmem)
      → Unsplit rest
      → length rest ≤ fuel
      → remove_loop lo n fuel seen rest k ≡ some (seen ++ cut lo n rest, k)
  unfolding remove_loop cut
  loop_plain fuel seen [] k u len = rw (append-nil seen)
  loop_plain zero seen (a ∷ rest) k u len = absurd (omega arith)
  loop_plain (suc fuel) seen (a ∷ rest) k u len =
      remove_loop_step fuel seen a rest k (visit_unsplit seen a rest k u.0)
      ∙ loop_plain fuel (seen ++ pieces lo n a) rest k u.1 (omega arith)
      ∙ ap (λ t. some (t, k)) (append_assoc seen (pieces lo n a) (cut lo n rest))

  pub split-holds : (a : Vmarea) → case_of lo (lo + n) a ≡ split → holds a (lo - 1) ≡ true
  unfolding case_of
  split-holds a e = ground arith

  pub split_bounds :
      (a : Vmarea) → case_of lo (lo + n) a ≡ split → (a.start < lo) × (lo + n < a.end)
  unfolding case_of
  split_bounds a e = ground arith

  pub upper_unsplit : (a : Vmarea) → case_of lo (lo + n) (upper_piece lo n a) ≢ split
  unfolding case_of
  upper_unsplit a = ground arith

  pub hits-Unsplit : (areas : List Vmarea) → hits areas (lo - 1) ≡ [] → Unsplit areas
  hits-Unsplit [] e = tt
  hits-Unsplit (a ∷ rest) e = elim (Bool-cases (holds a (lo - 1))) [
    | inl h ↦ absurd (ground arith)
    | inr h ↦ ((λ s. absurd (ground (arith, split-holds a s))), hits-Unsplit rest (ground arith))
  ]

  pub Case-cases : (c : Case) → (c ≡ split) ⊎ (c ≢ split)
  Case-cases split = inl refl
  Case-cases shorten = inr (λ e. cc)
  Case-cases advance = inr (λ e. cc)
  Case-cases unlink = inr (λ e. cc)
  Case-cases keep = inr (λ e. cc)

  pub free-ref_obj : (o : Option ℕ) (k : Kmem) → (ref_obj o k).free ≡ k.free
  unfolding ref_obj
  free-ref_obj none k = refl
  free-ref_obj (some o) k = refl
