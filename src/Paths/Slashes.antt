-- ===== src/Paths/Slashes.antt =====
-- kernel/fs/namev.c: the slashes of a path.
use abmp.Common.{
  ℕ, ◌≤◌, ◌<◌, ◌≡◌, refl, inl, inr, Bool, true, false, ◌||◌, some, List, [], ◌∷◌, ◌==◌, length,
  arith, Bool-cases,
}
use abmp.Paths.{is_dot, is_dot_dot, from_slash, skip_slashes, nothing_at_end, slash}

-- The string ends in a slash.
abbrev pub ends_in_slash : List ℕ → Bool
ends_in_slash [] = false
ends_in_slash (c ∷ []) = c == slash
ends_in_slash (c ∷ d ∷ s) = ends_in_slash (d ∷ s)

pub from_slash-ends :
    (s r : List ℕ) → from_slash s ≡ some r → ends_in_slash r ≡ true → ends_in_slash s ≡ true
unfolding from_slash
from_slash-ends [] r h e = cc
from_slash-ends (c ∷ []) r h e = ground (arith, h, e)
from_slash-ends (c ∷ d ∷ s) r h e = elim (Bool-cases (c == slash)) [
  | inl k ↦ ground (arith, k, h, e)
  | inr k ↦ from_slash-ends (d ∷ s) r (ground (arith, k, h)) e
]

pub skip_slashes-ends :
    (s : List ℕ) → ends_in_slash (skip_slashes s) ≡ true → ends_in_slash s ≡ true
unfolding skip_slashes
skip_slashes-ends [] e = e
skip_slashes-ends (c ∷ []) e = ground (arith, e)
skip_slashes-ends (c ∷ d ∷ s) e = elim (Bool-cases (c == slash)) [
  | inl k ↦ skip_slashes-ends (d ∷ s) (rw k at e)
  | inr k ↦ rw k at e
]

pub all_slashes :
    (c : ℕ) (s : List ℕ)
    → nothing_at_end (skip_slashes (c ∷ s)) ≡ true
    → ends_in_slash (c ∷ s) ≡ true
unfolding skip_slashes
all_slashes c [] h = ground (arith, h)
all_slashes c (d ∷ s) h = elim (Bool-cases (c == slash)) [
  | inl k ↦ all_slashes d s (rw k at h)
  | inr k ↦ ground (arith, k, h)
]

pub from_slash-cons : (s r : List ℕ) → from_slash s ≡ some r → (t : List ℕ) × (r ≡ slash ∷ t)
unfolding from_slash
from_slash-cons [] r h = cc
from_slash-cons (c ∷ s) r h = elim (Bool-cases (c == slash)) [
  | inl k ↦ (s, ground (arith, k, h))
  | inr k ↦ from_slash-cons s r (rw k at h)
]

pub length-skip_slashes : (s : List ℕ) → length (skip_slashes s) ≤ length s
unfolding skip_slashes
length-skip_slashes [] = omega arith
length-skip_slashes (c ∷ s) = ground (arith, length-skip_slashes s)

pub length-from_slash : (s r : List ℕ) → from_slash s ≡ some r → length (skip_slashes r) < length s
unfolding from_slash skip_slashes
length-from_slash [] r h = cc
length-from_slash (c ∷ s) r h = elim (Bool-cases (c == slash)) [
  | inl k ↦
      let e : r ≡ c ∷ s = ground (arith, k, h) in rw (e, k) (omega (arith, length-skip_slashes s))
  | inr k ↦ omega (arith, length-from_slash s r (rw k at h))
]

-- A string with a slash is neither "." nor "..".
pub from_slash-dots : (s r : List ℕ) → from_slash s ≡ some r → (is_dot s || is_dot_dot s) ≡ false
unfolding from_slash
from_slash-dots [] r h = refl
from_slash-dots (c ∷ []) r h = ground (arith, h)
from_slash-dots (c ∷ d ∷ []) r h = ground (arith, h)
from_slash-dots (c ∷ d ∷ e ∷ s) r h = refl
