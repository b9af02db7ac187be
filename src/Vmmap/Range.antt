-- ===== src/Vmmap/Range.antt =====
-- `vmmap_is_range_empty` and `vmmap_find_range` (kernel/vm/vmmap.c): what their answers mean. Their
-- loops do not stop at a `break`, so the areas at the end of the list decide.
use abmp.Common.{
  ℕ, ◌+◌, ◌-◌, ◌≤◌, ◌<◌, ◌≡◌, refl, inl, inr, ◌||◌, Bool, false, true, some, none, List, [], ◌∷◌,
  ◌++◌, arith, ltb, leb, u32, All, answer-cases,
}
use abmp.Vmmap.{
  Vmarea, pn_low, pn_high, lohi, hilo, empty_from, vmmap_is_range_empty, no_range, find_down,
  find_up, vmmap_find_range, vmmap_insert,
}
use abmp.Vmmap.Hits.{Proper, Misses}
use abmp.Vmmap.Order.{Ascends}

-- The test of the loop's body.
abbrev pub apart : Vmarea → ℕ → ℕ → Bool
apart a lo hi = ltb hi a.start || leb a.end lo

empty_from-last :
    (i : Bool) (xs : List Vmarea) (a : Vmarea) (lo hi : ℕ)
    → empty_from i (xs ++ (a ∷ [])) lo hi ≡ apart a lo hi
unfolding empty_from
empty_from-last i [] a lo hi = refl
empty_from-last i (x ∷ xs) a lo hi = empty_from-last (apart x lo hi) xs a lo hi

-- `vmmap_is_range_empty` of a range of user memory returns, and its answer is that of the last
-- area alone: 1 where that area begins behind the end of the range or ends at its start or before,
-- whatever the other areas hold.
pub is_range_empty-last :
    (xs : List Vmarea) (a : Vmarea) (lo n : ℕ)
    → pn_low ≤ lo
    → 0 < n
    → lo + n ≤ pn_high
    → vmmap_is_range_empty (xs ++ (a ∷ [])) lo n ≡ some (apart a lo (lo + n))
unfolding vmmap_is_range_empty
is_range_empty-last xs a lo n low pos high = ground (arith, empty_from-last true xs a lo (lo + n))

-- Where `vmmap_is_range_empty` returns, the range lies in user memory.
pub is_range_empty_bounds :
    (areas : List Vmarea) (lo n : ℕ) (r : Bool)
    → lo < 4294967296
    → n < 4294967296
    → vmmap_is_range_empty areas lo n ≡ some r
    → (pn_low ≤ lo) × (0 < n) × (lo + n ≤ pn_high)
unfolding vmmap_is_range_empty
is_range_empty_bounds areas lo n r hl hn h = ground arith

find_up_last :
    (areas : List Vmarea) (n r start : ℕ) (xs : List Vmarea) (c : Vmarea)
    → n ≤ pn_high
    → 0 < n
    → Proper c
    → ((lo len : ℕ)
        → pn_low ≤ lo
        → 0 < len
        → lo + len ≤ pn_high
        → vmmap_is_range_empty areas lo len ≡ some (apart c lo (lo + len)))
    → find_up areas n start (xs ++ (c ∷ [])) ≡ some r
    → (r ≡ c.end + 1) × (r + n ≤ pn_high)
unfolding find_up
find_up_last areas n r start [] c hn pos p last e =
    elim (answer-cases (vmmap_is_range_empty areas (u32 (c.end + 1)) (u32 (c.end + n)))) [
      | inl q ↦ absurd (ground arith)
      | inr (inl q) ↦
          let (low, some_pages, high) =
            is_range_empty_bounds areas (u32 (c.end + 1)) (u32 (c.end + n)) true (omega arith)
              (omega arith) q in
          (ground arith, ground arith)
      | inr (inr q) ↦
          let (low, some_pages, high) =
            is_range_empty_bounds areas (u32 (c.end + 1)) (u32 (c.end + n)) false (omega arith)
              (omega arith) q in
          absurd (ground (arith, last (u32 (c.end + 1)) (u32 (c.end + n)) low some_pages high))
    ]
find_up_last areas n r start (x ∷ xs) c hn pos p last e =
    elim (answer-cases (vmmap_is_range_empty areas (u32 (x.end + 1)) (u32 (x.end + n)))) [
      | inl q ↦ absurd (ground arith)
      | inr (inl q) ↦ find_up_last areas n r (u32 (x.end + 1)) xs c hn pos p last (ground arith)
      | inr (inr q) ↦ find_up_last areas n r start xs c hn pos p last (ground arith)
    ]

-- Upwards, in a map that is not empty, `vmmap_find_range` either panics or finds the range one page
-- behind the last area of the list.
pub find_range_lohi-last :
    (xs : List Vmarea) (c : Vmarea) (n r : ℕ)
    → 0 < n
    → n ≤ pn_high
    → Proper c
    → vmmap_find_range (xs ++ (c ∷ [])) n lohi ≡ some r
    → (r ≡ c.end + 1) × (r + n ≤ pn_high)
unfolding vmmap_find_range
find_range_lohi-last [] c n r pos hn p e =
    find_up_last (c ∷ []) n r no_range [] c hn pos p
      (λ lo len low some_pages high. is_range_empty-last [] c lo len low some_pages high)
      (ground arith)
find_range_lohi-last (x ∷ xs) c n r pos hn p e =
    find_up_last (x ∷ (xs ++ (c ∷ []))) n r no_range (x ∷ xs) c hn pos p
      (λ lo len low some_pages high. is_range_empty-last (x ∷ xs) c lo len low some_pages high)
      (ground arith)

Ascends-Misses :
    (from n : ℕ) (xs : List Vmarea) (c : Vmarea)
    → Ascends from (xs ++ (c ∷ []))
    → All (λ (a : Vmarea). a.end ≤ c.end) (xs ++ (c ∷ []))
Ascends-Misses from n [] c v = (omega arith, tt)
Ascends-Misses from n (x ∷ xs) c v = (last_end x.end xs c v.2, Ascends-Misses x.end n xs c v.2)
  where
    last_end :
        (from' : ℕ) (ys : List Vmarea) (d : Vmarea) → Ascends from' (ys ++ (d ∷ [])) → from' ≤ d.end
    last_end from' [] d w = omega arith
    last_end from' (y ∷ ys) d w = omega (arith, last_end y.end ys d w.2)

Misses-above :
    (lo hi e : ℕ) (areas : List Vmarea)
    → e ≤ lo
    → All (λ (a : Vmarea). a.end ≤ e) areas
    → Misses areas lo hi
Misses-above lo hi e [] h all = tt
Misses-above lo hi e (a ∷ rest) h all = (inr (omega arith), Misses-above lo hi e rest h all.1)

-- In a map whose list ascends, the range found upwards is free.
pub find_range_lohi-Misses :
    (xs : List Vmarea) (c : Vmarea) (n r from : ℕ)
    → 0 < n
    → n ≤ pn_high
    → Proper c
    → Ascends from (xs ++ (c ∷ []))
    → vmmap_find_range (xs ++ (c ∷ [])) n lohi ≡ some r
    → Misses (xs ++ (c ∷ [])) r (r + n)
find_range_lohi-Misses xs c n r from pos hn p v e =
    let (at, fits) = find_range_lohi-last xs c n r pos hn p e in
    Misses-above r (r + n) c.end (xs ++ (c ∷ [])) (omega arith) (Ascends-Misses from n xs c v)

-- Downwards, in a map of one area, `vmmap_find_range` finds nothing: where it returns, it
-- returns -1, whatever room there is.
pub find_range_hilo_nothing :
    (c : Vmarea) (n r : ℕ)
    → 0 < n
    → n ≤ pn_high
    → Proper c
    → vmmap_find_range (c ∷ []) n hilo ≡ some r
    → r ≡ no_range
unfolding vmmap_find_range vmmap_is_range_empty empty_from find_down
find_range_hilo_nothing c n r pos hn p e = ground arith

-- In an empty map the range that `vmmap_find_range` finds downwards ends one page above user
-- memory, so that `vmmap_insert` of an area there panics.
pub find_range_hilo_empty :
    (n : ℕ) (new : Vmarea)
    → 0 < n
    → n ≤ pn_high
    → new.start ≡ pn_high - n + 1
    → new.end ≡ new.start + n
    → (vmmap_find_range [] n hilo ≡ some new.start) × (vmmap_insert [] new ≡ none)
unfolding vmmap_find_range vmmap_insert
find_range_hilo_empty n new pos hn h k = (ground arith, ground arith)
