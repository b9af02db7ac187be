-- ===== src/Strings/Search.antt =====
-- kernel/util/string.c: the counted functions against the others, and the search for a byte.
use abmp.Common.{
  ℕ, zero, suc, ◌<◌, ◌≡◌, ◌≢◌, refl, true, false, none, some, List, [], ◌∷◌, ◌++◌, append_assoc,
  ◌==◌, length, All, arith,
}
use abmp.Strings.{strcmp, strncmp, strcpy, strncpy, strchr, strrchr}
use abmp.Strings.Contents.{Text, memory}

-- With a count beyond the string's length, `strncmp` and `strncpy` of a string do what `strcmp` and
-- `strcpy` do, whatever the other memory is.
pub strncmp-strncpy :
    (xs after other : List ℕ) (count : ℕ)
    → Text xs
    → length xs < count
    → (strncmp (memory xs after) other count ≡ strcmp (memory xs after) other)
      × (strncpy other (memory xs after) count ≡ strcpy other (memory xs after))
unfolding strncmp strcmp strncpy strcpy
strncmp-strncpy xs after other zero h hl = absurd (omega arith)
strncmp-strncpy [] after [] (suc count) h hl = (refl, refl)
strncmp-strncpy [] after (o ∷ other) (suc count) h hl = (ground arith, refl)
strncmp-strncpy (x ∷ xs) after [] (suc count) h hl = (refl, refl)
strncmp-strncpy (x ∷ xs) after (o ∷ other) (suc count) h hl =
    let (p, q) = strncmp-strncpy xs after other count h.1 (omega arith) in (rw p refl, rw q refl)

-- A byte that a string does not have.
abbrev pub Lacks : ℕ → List ℕ → Type 0
Lacks c = All (λ x. x ≢ c)

pub strchr_nothing :
    (c : ℕ) (xs after : List ℕ)
    → Text xs
    → 0 < c
    → Lacks c xs
    → (strchr (memory xs after) c ≡ some none) × (strrchr (memory xs after) c ≡ some none)
unfolding strchr strrchr
strchr_nothing c [] after h hc hn = (ground arith, refl)
strchr_nothing c (x ∷ xs) after h hc hn =
    let (p, q) = strchr_nothing c xs after h.1 hc hn.1 in
    let n : (x == c) ≡ false = ground (arith, hn.0) in
    let z : (x == 0) ≡ false = ground (arith, h.0) in (rw (p, n, z) refl, rw (q, n, z) refl)

strchr_first :
    (c : ℕ) (xs after : List ℕ)
    → Text xs
    → Lacks c xs
    → strchr (xs ++ (c ∷ after)) c ≡ some (some (length xs))
unfolding strchr
strchr_first c [] after h hn = ground arith
strchr_first c (x ∷ xs) after h hn =
    let p = strchr_first c xs after h.1 hn.1 in
    let n : (x == c) ≡ false = ground (arith, hn.0) in
    let z : (x == 0) ≡ false = ground (arith, h.0) in rw (p, n, z) refl

strrchr_last :
    (c : ℕ) (xs ys after : List ℕ)
    → Text xs
    → Text ys
    → 0 < c
    → Lacks c ys
    → strrchr (xs ++ (c ∷ memory ys after)) c ≡ some (some (length xs))
unfolding strrchr
strrchr_last c [] ys after hx hy hc hn =
    let q = (strchr_nothing c ys after hy hc hn).1 in
    let z : (c == 0) ≡ false = ground arith in
    let e : (c == c) ≡ true = ground arith in rw (q, z, e) refl
strrchr_last c (x ∷ xs) ys after hx hy hc hn =
    let q = strrchr_last c xs ys after hx.1 hy hc hn in
    let z : (x == 0) ≡ false = ground (arith, hx.0) in rw (q, z) refl

-- For a string with the byte `c` between `xs` and `ys`, `strchr` finds it if `xs` lacks it, and
-- `strrchr` finds it if `ys` lacks it.
pub strchr-strrchr :
    (c : ℕ) (xs ys after : List ℕ)
    → Text xs
    → Text ys
    → 0 < c
    → Lacks c xs
    → Lacks c ys
    → (strchr (memory (xs ++ (c ∷ ys)) after) c ≡ some (some (length xs)))
      × (strrchr (memory (xs ++ (c ∷ ys)) after) c ≡ some (some (length xs)))
strchr-strrchr c xs ys after hx hy hc lx ly =
    rw (append_assoc xs (c ∷ ys) (0 ∷ after))
      (strchr_first c xs (memory ys after) hx lx, strrchr_last c xs ys after hx hy hc ly)
