-- ===== src/Common/Slices.antt =====
-- Parts of a list: what `take` and `drop` keep of a concatenation.
use Prim.Native.Nat.{ℕ, zero, suc, ◌+◌, ◌-◌, ◌≤◌}
use mathlib.Core.Path.{◌≡◌, refl, ap, ◌∙◌}
use mathlib.Core.List.{List, [], ◌∷◌, ◌++◌}
use native.Mathlib.Omega.{arith}
use abmp.Common.Lists.{length, take, drop}

module _ {ℓ} {A : Type ℓ} where
  pub length-take : (n : ℕ) (xs : List A) → n ≤ length xs → length (take n xs) ≡ n
  length-take zero xs h = refl
  length-take (suc n) [] h = absurd (omega arith)
  length-take (suc n) (x ∷ xs) h = ap suc (length-take n xs (omega arith))

  pub length-drop : (n : ℕ) (xs : List A) → n ≤ length xs → length (drop n xs) + n ≡ length xs
  length-drop zero xs h = omega arith
  length-drop (suc n) [] h = absurd (omega arith)
  length-drop (suc n) (x ∷ xs) h = omega (arith, length-drop n xs (omega arith))

  pub drop-append :
      (xs ys : List A) (m : ℕ) → length xs ≤ m → drop m (xs ++ ys) ≡ drop (m - length xs) ys
  drop-append [] ys m h = ap (λ k. drop k ys) (omega arith)
  drop-append (x ∷ xs) ys zero h = absurd (omega arith)
  drop-append (x ∷ xs) ys (suc m) h =
      drop-append xs ys m (omega arith) ∙ ap (λ k. drop k ys) (omega arith)

  -- The first part alone.
  pub take-append : (xs ys : List A) → take (length xs) (xs ++ ys) ≡ xs
  take-append [] ys = refl
  take-append (x ∷ xs) ys = ap (λ l. x ∷ l) (take-append xs ys)

  -- What lies before `n`, whatever comes after.
  pub take-drop_before :
      (o k n : ℕ) (xs ys : List A)
      → o + k ≤ n
      → n ≤ length xs
      → take k (drop o (take n xs ++ ys)) ≡ take k (drop o xs)
  take-drop_before zero zero n xs ys h g = refl
  take-drop_before zero (suc k) zero xs ys h g = absurd (omega arith)
  take-drop_before zero (suc k) (suc n) [] ys h g = absurd (omega arith)
  take-drop_before zero (suc k) (suc n) (x ∷ xs) ys h g =
      ap (λ l. x ∷ l) (take-drop_before zero k n xs ys (omega arith) (omega arith))
  take-drop_before (suc o) k zero xs ys h g = absurd (omega arith)
  take-drop_before (suc o) k (suc n) [] ys h g = absurd (omega arith)
  take-drop_before (suc o) k (suc n) (x ∷ xs) ys h g =
      take-drop_before o k n xs ys (omega arith) (omega arith)

  pub drop-drop : (m n k : ℕ) (xs : List A) → m + n ≡ k → drop n (drop m xs) ≡ drop k xs
  drop-drop zero n k xs h = ap (λ i. drop i xs) (omega arith)
  drop-drop (suc m) zero zero [] h = refl
  drop-drop (suc m) (suc n) zero xs h = absurd (omega arith)
  drop-drop (suc m) zero (suc k) [] h = refl
  drop-drop (suc m) (suc n) (suc k) [] h = refl
  drop-drop (suc m) zero zero (x ∷ xs) h = absurd (omega arith)
  drop-drop (suc m) n (suc k) (x ∷ xs) h = drop-drop m n k xs (omega arith)
