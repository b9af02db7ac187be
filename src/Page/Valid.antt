-- ===== src/Page/Valid.antt =====
-- kernel/mm/page.c: what the allocator keeps true of a group between two calls.
use abmp.Common.{
  ℕ, zero, suc, ◌+◌, ◌*◌, ◌/◌, ◌%◌, ◌^◌, ◌≤◌, ◌<◌, ◌≡◌, refl, ap, sym, subst, inl, inr, Bool, true,
  false, not, ltb, List, ◌==◌, if◌then◌else◌, Bool-cases, arith, Option, some, ◌>>=◌, ◌∙◌,
}
use native.Mathlib.Nat.{one-le-pow}
use abmp.Page.Buddy.{Group, contains, set_free, flip, flip_parent, calculate_index}
use abmp.Page.Sums.{total, block, pair, covers, cover, free-set_free, free-set_free_other}

-- A computation that succeeds, with what holds of its result.
abbrev pub Some {ℓ κ} : {A : Type ℓ} → (A → Type κ) → Option A → Type (ℓ ⊔ κ)
Some P r = (a : _) × ((r ≡ some a) × P a)

pub Some-bind {ℓ κ μ} :
    {A : Type ℓ} {B : Type ℓ} {P : A → Type κ} {Q : B → Type μ} {r : Option A} {f : A → Option B}
    → Some P r
    → ((a : A) → P a → Some Q (f a))
    → Some Q (r >>= f)
Some-bind {f = f} (a, (e, p)) h = let (b, (d, q)) = h a p in (b, (rw e d, q))

-- The block `i` of the order `o` starts at a multiple of its size and ends inside the group.
abbrev pub Placed : ℕ → ℕ → ℕ → Type 0
Placed n o i = (i / 2 ^ o * 2 ^ o ≡ i) × (i + 2 ^ o ≤ n)

unfoldable pub odd : ℕ → Bool
odd n = n % 2 == 1

abbrev pub AllPlaced : Group → Type 0
AllPlaced g = (o i : ℕ) → o < 8 → contains i (g.free o) ≡ true → Placed g.npages o i

-- A page is in one free block at most.
abbrev pub Disjoint : Group → Type 0
Disjoint g = (p : ℕ) → cover g p ≤ 1

-- A bit tells whether exactly one of two buddies is free.
abbrev pub Paired : Group → Type 0
Paired g = (o q : ℕ) → o < 7 → g.bits (suc o) q ≡ odd (total (pair o q) (g.free o))

abbrev pub Valid : Group → Type 0
Valid g = AllPlaced g × (Disjoint g × Paired g)

-- What `flip_parent` does to a block inside the group.
unfoldable pub flipped : ℕ → ℕ → Group → Group
flipped o i g = if ltb o 7 then flip (suc o) (i / 2 ^ suc o) g else g

pub two_pow_pos : (o : ℕ) → 1 ≤ 2 ^ o
two_pow_pos o = one-le-pow o 2 (omega arith)

pub flip_parent-flipped :
    (o i : ℕ) (g : Group) → i < g.npages → flip_parent o i g ≡ some (flipped o i g)
unfolding flip_parent calculate_index flipped
flip_parent-flipped o i g h = elim (Bool-cases (ltb o 7)) [
  | inl e ↦
      let a : ltb (suc o) 8 ≡ true = ground arith in
      let b : ltb i g.npages ≡ true = ground arith in rw (e, a, b) refl
  | inr e ↦ rw e refl
]

pub flipped-same :
    (o i : ℕ) (g : Group)
    → ((flipped o i g).free ≡ g.free)
      × (((flipped o i g).npages ≡ g.npages) × ((flipped o i g).base ≡ g.base))
unfolding flipped flip
flipped-same o i g = elim (Bool-cases (ltb o 7)) [
  | inl e ↦ rw e (refl, (refl, refl))
  | inr e ↦ rw e (refl, (refl, refl))
]

pub covers-same : (n : ℕ) (g g' : Group) (p : ℕ) → g'.free ≡ g.free → covers n g' p ≡ covers n g p
covers-same zero g g' p h = refl
covers-same (suc n) g g' p h =
    let l = ap (λ f. total (block (2 ^ n) p) (f n)) h in omega (arith, l, covers-same n g g' p h)

pub cover-flipped : (o i : ℕ) (g : Group) (p : ℕ) → cover (flipped o i g) p ≡ cover g p
unfolding cover
cover-flipped o i g p = covers-same 8 g (flipped o i g) p ((flipped-same o i g).0)

pub set_free-AllPlaced :
    (o : ℕ) (xs : List ℕ) (g : Group)
    → AllPlaced g
    → ((i : ℕ) → contains i xs ≡ true → Placed g.npages o i)
    → AllPlaced (set_free o xs g)
unfolding set_free
set_free-AllPlaced o xs g h k q i l c = elim (Bool-cases (q == o)) [
  | inl e ↦
      let p : q ≡ o = ground arith in
      let f = ap (λ z. (set_free o xs g).free z) p ∙ free-set_free o xs g in
      rw p (k i (subst (λ y. contains i y ≡ true) f c))
  | inr e ↦ h q i l (subst (λ y. contains i y ≡ true) (free-set_free_other q o xs g e) c)
]

pub set_free-Paired :
    (o : ℕ) (xs : List ℕ) (g : Group)
    → Paired g
    → ((q : ℕ) → o < 7 → g.bits (suc o) q ≡ odd (total (pair o q) xs))
    → Paired (set_free o xs g)
unfolding set_free
set_free-Paired o xs g h k r q l = elim (Bool-cases (r == o)) [
  | inl e ↦ let p : r ≡ o = ground arith in rw (p, free-set_free o xs g) (k q (omega arith))
  | inr e ↦ rw (free-set_free_other r o xs g e) (h r q l)
]

set_free-bits : (o : ℕ) (xs : List ℕ) (g : Group) → (set_free o xs g).bits ≡ g.bits
unfolding set_free
set_free-bits o xs g = refl

odd-suc : (n : ℕ) → odd (n + 1) ≡ not (odd n)
unfolding odd
odd-suc n = ground arith

-- A bit flipped for a list that gains or loses the block.
pub flip-odd :
    (o q i m n : ℕ)
    → odd (m + pair o q i) ≡ odd n
    → (if q == i / 2 ^ suc o then not (odd m) else odd m) ≡ odd n
unfolding pair
flip-odd o q i m n h = elim (Bool-cases (q == i / 2 ^ suc o)) [
  | inl e ↦
      let f : ((i / 2 ^ suc o) == q) ≡ true = ground arith in
      rw e (sym (odd-suc m) ∙ (ap (λ b. odd (m + (if b then 1 else 0))) (sym f) ∙ h))
  | inr e ↦
      let f : ((i / 2 ^ suc o) == q) ≡ false = ground arith in
      rw e (ap odd (omega arith) ∙ (ap (λ b. odd (m + (if b then 1 else 0))) (sym f) ∙ h))
]

flipped-bits :
    (o i q : ℕ) (g : Group)
    → o < 7
    → (flipped o i g).bits (suc o) q
      ≡ (if q == i / 2 ^ suc o then not (g.bits (suc o) q) else g.bits (suc o) q)
unfolding flipped flip
flipped-bits o i q g l =
    let e : ltb o 7 ≡ true = ground arith in
    let f : (suc o == suc o) ≡ true = ground arith in rw (e, f) refl

flipped-bits_other :
    (o i r q : ℕ) (g : Group) → (r == o) ≡ false → (flipped o i g).bits (suc r) q ≡ g.bits (suc r) q
unfolding flipped flip
flipped-bits_other o i r q g h = elim (Bool-cases (ltb o 7)) [
  | inl e ↦ let f : (suc r == suc o) ≡ false = ground arith in rw (e, f) refl
  | inr e ↦ rw e refl
]

pub flipped-Paired :
    (o i : ℕ) (xs : List ℕ) (g : Group)
    → Paired g
    → ((q : ℕ) → o < 7 → odd (total (pair o q) (g.free o) + pair o q i) ≡ odd (total (pair o q) xs))
    → Paired (flipped o i (set_free o xs g))
flipped-Paired o i xs g h k r q l = elim (Bool-cases (r == o)) [
  | inl e ↦
      let p : r ≡ o = ground arith in
      let w = ap (λ f. f o) ((flipped-same o i (set_free o xs g)).0) ∙ free-set_free o xs g in
      rw
        (
          p,
          w,
          flipped-bits o i q (set_free o xs g) (omega arith),
          set_free-bits o xs g,
          h o q (omega arith),
        )
        (flip-odd o q i (total (pair o q) (g.free o)) (total (pair o q) xs) (k q (omega arith)))
  | inr e ↦
      let w =
        ap (λ f. f r) ((flipped-same o i (set_free o xs g)).0) ∙ free-set_free_other r o xs g e in
      rw (w, flipped-bits_other o i r q (set_free o xs g) e, set_free-bits o xs g) (h r q l)
]
