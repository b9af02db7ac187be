-- ===== src/Strings/Contents.antt =====
-- kernel/util/string.c: what the functions do, in terms of the strings' contents.
use abmp.Common.{
  ℕ, zero, suc, ◌<◌, ◌≡◌, ◌≢◌, refl, inl, inr, true, false, some, List, [], ◌∷◌, ◌++◌, ◌==◌,
  if◌then◌else◌, length, All, ltb, arith, Bool-cases,
}
use abmp.Strings.{strlen, strnlen, difference, strcmp, strcpy, strcat}

-- Bytes, none of them NUL.
abbrev pub Text : List ℕ → Type 0
Text = All (λ c. (0 < c) × (c < 256))

-- The memory from the start of the string `xs` on.
abbrev pub memory : List ℕ → List ℕ → List ℕ
memory xs after = xs ++ (0 ∷ after)

pub strlen_lem : (xs after : List ℕ) → Text xs → strlen (memory xs after) ≡ some (length xs)
unfolding strlen
strlen_lem [] after h = refl
strlen_lem (x ∷ xs) after h =
    let e : (x == 0) ≡ false = ground (arith, h.0) in rw (strlen_lem xs after h.1, e) refl

abbrev pub min : ℕ → ℕ → ℕ
min m n = if ltb m n then m else n

-- `strnlen` is the length of the string, cut off at the count.
pub strnlen_lem :
    (xs after : List ℕ) (count : ℕ)
    → Text xs
    → strnlen (memory xs after) count ≡ some (min (length xs) count)
unfolding strnlen
strnlen_lem [] after zero h = refl
strnlen_lem [] after (suc count) h = ground arith
strnlen_lem (x ∷ xs) after zero h = ground arith
strnlen_lem (x ∷ xs) after (suc count) h =
    let e : (x == 0) ≡ false = ground (arith, h.0) in
    rw (strnlen_lem xs after count h.1, e) ground arith

differs : (x y : ℕ) → x < 256 → y < 256 → x ≢ y → (difference x y == 0) ≡ false
differs x y hx hy h = ground arith

-- `strcmp` of two strings comes to an end within them, and returns 0 exactly for equal ones.
pub strcmp-Text :
    (xs ys after after' : List ℕ)
    → Text xs
    → Text ys
    → (n : ℕ) × ((strcmp (memory xs after) (memory ys after') ≡ some n)
        × ((n ≡ 0 → xs ≡ ys) × (xs ≡ ys → n ≡ 0)))
unfolding strcmp
strcmp-Text [] [] after after' hx hy = (0, (refl, (λ _. refl, λ _. refl)))
strcmp-Text [] (y ∷ ys) after after' hx hy =
    let e = differs 0 y (omega arith) (hy.0).1 (omega (arith, (hy.0).0)) in
    (
      difference 0 y,
      (rw e refl, (λ p. absurd (ground (arith, e, p)), λ p. absurd (ground (arith, p)))),
    )
strcmp-Text (x ∷ xs) [] after after' hx hy =
    let e = differs x 0 (hx.0).1 (omega arith) (omega (arith, (hx.0).0)) in
    (
      difference x 0,
      (rw e refl, (λ p. absurd (ground (arith, e, p)), λ p. absurd (ground (arith, p)))),
    )
strcmp-Text (x ∷ xs) (y ∷ ys) after after' hx hy = elim (Bool-cases (x == y)) [
  | inr n ↦
      let e = differs x y (hx.0).1 (hy.0).1 (ground (arith, n)) in
      (
        difference x y,
        (rw e refl, (λ p. absurd (ground (arith, e, p)), λ p. absurd (ground (arith, n, p)))),
      )
  | inl q ↦
      let e : x ≡ y = ground (arith, q) in
      let nz : (x == 0) ≡ false = ground (arith, hx.0) in
      let d : (difference x y == 0) ≡ true = ground (arith, e, hx.0) in
      let (n, (p, (f, g))) = strcmp-Text xs ys after after' hx.1 hy.1 in
      (n, (rw (d, nz) p, (λ z. ground (arith, e, f z), λ z. g (ground (arith, z)))))
]

-- The rest of a memory behind its first `n` bytes.
abbrev pub behind : ℕ → List ℕ → List ℕ
behind zero xs = xs
behind (suc n) [] = []
behind (suc n) (x ∷ xs) = behind n xs

-- `strcpy` of a string into memory with room for it leaves the string there, and the memory behind
-- it as it was.
pub strcpy_lem :
    (xs after dest : List ℕ)
    → Text xs
    → length xs < length dest
    → strcpy dest (memory xs after) ≡ some (memory xs (behind (suc (length xs)) dest))
unfolding strcpy
strcpy_lem xs after [] h hl = absurd (omega arith)
strcpy_lem [] after (d ∷ dest) h hl = refl
strcpy_lem (x ∷ xs) after (d ∷ dest) h hl =
    let e : (x == 0) ≡ false = ground (arith, h.0) in
    rw (strcpy_lem xs after dest h.1 (omega arith), e) refl

-- `strcat` of a string to another, with room for both, leaves the two there, one after the other,
-- and the memory behind them as it was.
pub strcat_lem :
    (xs ys after room : List ℕ)
    → Text xs
    → Text ys
    → length ys < suc (length room)
    → strcat (memory xs room) (memory ys after) ≡ some (memory (xs ++ ys) (behind (length ys) room))
unfolding strcat
strcat_lem [] ys after room hx hy hl = strcpy_lem ys after (0 ∷ room) hy hl
strcat_lem (x ∷ xs) ys after room hx hy hl =
    let e : (x == 0) ≡ false = ground (arith, hx.0) in
    rw (strcat_lem xs ys after room hx.1 hy hl, e) refl
