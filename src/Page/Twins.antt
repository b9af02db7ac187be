-- ===== src/Page/Twins.antt =====
-- kernel/mm/page.c: the numbers of two buddies and of the block that they make up.
use abmp.Common.{
  ℕ, suc, ◌+◌, ◌*◌, ◌/◌, ◌%◌, ◌^◌, ◌≤◌, ◌<◌, ◌≡◌, refl, ap, sym, inl, inr, ◌⊎◌, true, false, ltb,
  ◌==◌, if◌then◌else◌, Bool-cases, arith, ◌∙◌,
}
use native.Mathlib.Nat.{
  div-eq_of_lt-le, div-div-eq-div-mul, pow-suc, two-pow-succ, add-mul, mul-add, mul-le-mul_right,
  div-mul-le_self, lt-div-mul-add,
}
use abmp.Page.Buddy.{buddy, smaller}
use abmp.Page.Sums.{block, pair}
use abmp.Page.Valid.{two_pow_pos}

abbrev pub Aligned : ℕ → ℕ → Type 0
Aligned o i = i / 2 ^ o * 2 ^ o ≡ i

div_unique : (k s n : ℕ) → k * s ≤ n → n < k * s + s → n / s ≡ k
div_unique k s n h l = div-eq_of_lt-le s h (rw (add-mul k 1 s) (omega arith))

pub double : (o : ℕ) → 2 ^ suc o ≡ 2 ^ o + 2 ^ o
double o = two-pow-succ o

pub div_double : (o i : ℕ) → i / 2 ^ suc o ≡ i / 2 ^ o / 2
div_double o i = ap (λ d. i / d) (pow-suc 2 o) ∙ sym (div-div-eq-div-mul i (2 ^ o) 2)

pub block-halves :
    (o i p : ℕ) → block (2 ^ suc o) p i ≡ block (2 ^ o) p i + block (2 ^ o) p (i + 2 ^ o)
unfolding block
block-halves o i p = ground (arith, double o, two_pow_pos o)

pub block_first : (o i : ℕ) → block (2 ^ o) i i ≡ 1
unfolding block
block_first o i = ground (arith, two_pow_pos o)

-- A block of the order `o` whose pair is the larger block `i` starts in it.
pub inside :
    (o i j : ℕ) → Aligned (suc o) i → j / 2 ^ suc o ≡ i / 2 ^ suc o → block (2 ^ suc o) j i ≡ 1
unfolding block
inside o i j h e =
    let f = ap (λ q. q * 2 ^ suc o) e ∙ h in
    let a = div-mul-le_self j (2 ^ suc o) in
    let b = lt-div-mul-add {a = j} {b = 2 ^ suc o} (two_pow_pos (suc o)) in ground (arith, f, a, b)

pub pair-halves : (o i q : ℕ) → Aligned (suc o) i → pair o q (i + 2 ^ o) ≡ pair o q i
unfolding pair
pair-halves o i q h =
    let a : i / 2 ^ suc o * 2 ^ suc o ≤ i + 2 ^ o = omega (arith, h) in
    let b : i + 2 ^ o < i / 2 ^ suc o * 2 ^ suc o + 2 ^ suc o =
      omega (arith, h, double o, two_pow_pos o) in
    rw (div_unique (i / 2 ^ suc o) (2 ^ suc o) (i + 2 ^ o) a b) refl

multiple-Aligned : (o k n : ℕ) → k * 2 ^ o ≡ n → Aligned o n
multiple-Aligned o k n h =
    let p = two_pow_pos o in
    ap (λ q. q * 2 ^ o) (div_unique k (2 ^ o) n (omega (arith, h)) (omega (arith, h, p))) ∙ h

pub halves-Aligned : (o i : ℕ) → Aligned (suc o) i → Aligned o i × Aligned o (i + 2 ^ o)
halves-Aligned o i h =
    let c = i / 2 ^ suc o in
    let s = 2 ^ o in
    let e : c * s + c * s ≡ i = sym (mul-add c s s) ∙ (ap (λ t. c * t) (sym (double o)) ∙ h) in
    (
      multiple-Aligned o (c + c) i (add-mul c c s ∙ e),
      multiple-Aligned o (c + c + 1) (i + s)
          (add-mul (c + c) 1 s ∙ omega (arith, e, add-mul c c s)),
    )

-- Two blocks of one pair, apart from each other.
abbrev pub Twins : ℕ → ℕ → ℕ → Type 0
Twins o i j =
    (j ≡ buddy o i)
    × (Aligned (suc o) (smaller i j)
        × (((smaller i j ≡ i) × (j ≡ i + 2 ^ o)) ⊎ ((smaller i j ≡ j) × (i ≡ j + 2 ^ o))))

less_quotient : (a b s : ℕ) → a * s < b * s → a < b
less_quotient a b s h = elim (Bool-cases (ltb a b)) [
  | inl e ↦ ground arith
  | inr e ↦ let l : b ≤ a = ground arith in absurd (omega (arith, h, mul-le-mul_right s l))
]

-- The second of two twins follows the first.
twins_first :
    (o i j : ℕ)
    → Aligned o i
    → Aligned o j
    → i / 2 ^ suc o ≡ j / 2 ^ suc o
    → i < j
    → ((i / 2 ^ o) % 2 ≡ 0) × (((j / 2 ^ o) % 2 ≡ 1) × ((j ≡ i + 2 ^ o) × Aligned (suc o) i))
twins_first o i j h k e l =
    let s = 2 ^ o in
    let a = i / s in
    let b = j / s in
    let f : a / 2 ≡ b / 2 = sym (div_double o i) ∙ (e ∙ div_double o j) in
    let l' : a < b = less_quotient a b s (omega (arith, h, k, l)) in
    let b' : b ≡ a + 1 = omega arith in
    let c : (a / 2) + (a / 2) ≡ a = omega arith in
    let m : a / 2 * s + a / 2 * s ≡ a * s = sym (add-mul (a / 2) (a / 2) s) ∙ ap (λ z. z * s) c in
    let t : a / 2 * 2 ^ suc o ≡ i =
      ap (λ z. a / 2 * z) (double o) ∙ (mul-add (a / 2) s s ∙ (m ∙ h)) in
    let w : b * s ≡ a * s + s = ap (λ z. z * s) b' ∙ (add-mul a 1 s ∙ omega arith) in
    (omega arith, (omega arith, (omega (arith, h, k, w), multiple-Aligned (suc o) (a / 2) i t)))

pub twins_lem :
    (o i j : ℕ)
    → Aligned o i
    → Aligned o j
    → i / 2 ^ suc o ≡ j / 2 ^ suc o
    → (i == j) ≡ false
    → Twins o i j
unfolding buddy
twins_lem o i j h k e d = elim (Bool-cases (ltb i j)) [
  | inl f ↦
      let (a, (b, (c, t))) = twins_first o i j h k e (ground arith) in
      let x : ((i / 2 ^ o) % 2 == 1) ≡ false = ground (arith, a) in
      rw (f, x) (c, (t, inl (refl, c)))
  | inr f ↦
      let (a, (b, (c, t))) = twins_first o j i k h (sym e) (ground arith) in
      let x : ((i / 2 ^ o) % 2 == 1) ≡ true = ground (arith, b) in
      rw (f, x) (omega (arith, c), (t, inr (refl, c)))
]

pub Twins-block :
    (o i j p : ℕ)
    → Twins o i j
    → block (2 ^ suc o) p (smaller i j) ≡ block (2 ^ o) p i + block (2 ^ o) p j
Twins-block o i j p (_, (_, inl (e, f))) = rw (e, f) (block-halves o i p)
Twins-block o i j p (_, (_, inr (e, f))) = rw (e, f) (omega (arith, block-halves o j p))

pub Twins-end :
    (o i j n : ℕ) → Twins o i j → i + 2 ^ o ≤ n → j + 2 ^ o ≤ n → smaller i j + 2 ^ suc o ≤ n
Twins-end o i j n (_, (_, inl (e, f))) h k = rw e (omega (arith, f, k, double o))
Twins-end o i j n (_, (_, inr (e, f))) h k = rw e (omega (arith, f, h, double o))

pub pair_same : (o i j q : ℕ) → j / 2 ^ suc o ≡ i / 2 ^ suc o → pair o q j ≡ pair o q i
unfolding pair
pair_same o i j q e = ap (λ z. if z == q then 1 else 0) e
