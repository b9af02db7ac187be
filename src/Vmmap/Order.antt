-- ===== src/Vmmap/Order.antt =====
-- Where `vmmap_insert` (kernel/vm/vmmap.c) leaves `vmm_list` in ascending order, and where not.
use abmp.Common.{
  ℕ, ◌≤◌, ◌<◌, ◌≡◌, refl, false, true, some, List, [], ◌∷◌, ◌++◌, arith, All, ◌∙◌, append_assoc,
}
use abmp.Vmmap.{Vmarea, starts_later, before_last, place, vmmap_insert}

-- The areas from `from` on are not empty, do not overlap, and ascend.
abbrev pub Ascends : ℕ → List Vmarea → Type 0
Ascends from [] = Unit
Ascends from (a ∷ rest) = (from ≤ a.start) × (a.start < a.end) × Ascends a.end rest

pub not-starts_later :
    (new : Vmarea) (areas : List Vmarea)
    → All (λ (s : Vmarea). s.start ≤ new.start) areas
    → starts_later new areas ≡ false
unfolding starts_later
not-starts_later new [] h = refl
not-starts_later new (a ∷ rest) h = ground (arith, not-starts_later new rest h.1)

pub place_last :
    (new : Vmarea) (areas : List Vmarea)
    → All (λ (s : Vmarea). s.start ≤ new.start) areas
    → place new areas ≡ areas ++ (new ∷ [])
unfolding place
place_last new [] h = refl
place_last new (a ∷ rest) h = rw (not-starts_later new (a ∷ rest) h)

starts_later-middle :
    (new : Vmarea) (xs ys : List Vmarea) (a : Vmarea)
    → new.start < a.start
    → starts_later new (xs ++ (a ∷ ys)) ≡ true
unfolding starts_later
starts_later-middle new [] ys a h = ground arith
starts_later-middle new (x ∷ xs) ys a h = ground (arith, starts_later-middle new xs ys a h)

before_last-append :
    (new : Vmarea) (xs : List Vmarea) (b : Vmarea)
    → before_last new (xs ++ (b ∷ [])) ≡ xs ++ (new ∷ b ∷ [])
unfolding before_last
before_last-append new [] b = refl
before_last-append new (x ∷ []) b = refl
before_last-append new (x ∷ y ∷ xs) b = rw (before_last-append new (y ∷ xs) b)

place-before_last :
    (new : Vmarea) (xs : List Vmarea) (b : Vmarea)
    → starts_later new (xs ++ (b ∷ [])) ≡ true
    → place new (xs ++ (b ∷ [])) ≡ before_last new (xs ++ (b ∷ []))
unfolding place
place-before_last new [] b h = rw h
place-before_last new (x ∷ xs) b h = rw h

insert-eq-place :
    (areas : List Vmarea) (new : Vmarea) (t : List Vmarea)
    → vmmap_insert areas new ≡ some t
    → t ≡ place (record new { mapped = true }) areas
unfolding vmmap_insert
insert-eq-place areas new t h = ground arith

place-behind_later :
    (xs : List Vmarea) (a b new : Vmarea)
    → new.start < a.start
    → place new (xs ++ (a ∷ b ∷ [])) ≡ xs ++ (a ∷ new ∷ b ∷ [])
place-behind_later xs a b new h = rw (← append_assoc xs (a ∷ []) (b ∷ [])) (
    place-before_last new (xs ++ (a ∷ [])) b
      (rw (append_assoc xs (a ∷ []) (b ∷ [])) (starts_later-middle new xs (b ∷ []) a h))
    ∙ before_last-append new (xs ++ (a ∷ [])) b
    ∙ append_assoc xs (a ∷ []) (new ∷ b ∷ []))

not-Ascends :
    (from : ℕ) (xs ys : List Vmarea) (a b : Vmarea)
    → b.start < a.end
    → Ascends from (xs ++ (a ∷ b ∷ ys))
    → ⊥
not-Ascends from [] ys a b h v = omega arith
not-Ascends from (x ∷ xs) ys a b h v = not-Ascends x.end xs ys a b h v.2

-- Where two areas or more start after the new one, `vmmap_insert` breaks the order: the new area
-- stands behind one that starts later.
pub insert_unordered :
    (from : ℕ) (xs : List Vmarea) (a b new : Vmarea) (t : List Vmarea)
    → new.start < a.start
    → a.start < a.end
    → vmmap_insert (xs ++ (a ∷ b ∷ [])) new ≡ some t
    → ¬ Ascends from t
insert_unordered from xs a b new t h ne e v =
    let new' : Vmarea = record new { mapped = true } in
    let stands : t ≡ xs ++ (a ∷ new' ∷ b ∷ []) =
      insert-eq-place (xs ++ (a ∷ b ∷ [])) new t e ∙ place-behind_later xs a b new' h in
    not-Ascends from xs (b ∷ []) a new' (omega arith) (rw (← stands) v)
