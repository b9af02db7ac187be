-- ===== src/Slab/Size.antt =====
-- kernel/mm/slab.c: the size that `_calc_slab_size` chooses.
use abmp.Common.{
  ℕ, zero, suc, ◌+◌, ◌-◌, ◌*◌, ◌/◌, ◌^◌, ◌≤◌, ◌<◌, ◌≡◌, refl, ap, inl, inr, true, ltb, leb, ◌==◌,
  some, Bool-cases, arith, ◌∙◌,
}
use native.Mathlib.Nat.{div-mul-le_self, lt-div-mul-add, pow-le-pow_right, add-mul}
use abmp.Slab.{slab_size, slab_nobjs, slab_waste, is_large, min_order, best_order, calc_slab_size}

-- An order whose pages hold one object at least.
abbrev pub Fits : ℕ → ℕ → Type 0
Fits size o = (o < 8) × (size + 24 ≤ 4096 * 2 ^ o)

-- The objects of a slab and its header fit, one more object does not.
abbrev pub Full : ℕ → ℕ → ℕ → Type 0
Full size o n =
    (1 ≤ n) × ((n * (size + 8) + 16 ≤ 4096 * 2 ^ o) × (4096 * 2 ^ o < suc n * (size + 8) + 16))

nobjs-Full : (size o : ℕ) → Fits size o → Full size o (slab_nobjs size o)
unfolding slab_nobjs
nobjs-Full size o (l, h) =
    let x = 4096 * 2 ^ o - 16 in
    let b = size + 8 in
    let p = div-mul-le_self x b in
    let q = lt-div-mul-add {a = x} {b = b} (omega arith) in
    let z : 1 * b ≡ b = omega arith in
    let s : suc (x / b) * b ≡ x / b * b + b =
      ap (λ k. k * b) (omega arith) ∙ (add-mul (x / b) 1 b ∙ omega arith) in
    (
      elim (Bool-cases (leb 1 (x / b))) [
        | inl e ↦ ground arith
        | inr e ↦
            let y : x / b ≡ 0 = ground arith in absurd (omega (arith, ap (λ k. k * b) y, q, h))
      ],
      (omega (arith, p, h), omega (arith, q, s, h)),
    )

power_most : (o : ℕ) → o < 8 → 2 ^ o ≤ 128
power_most o l = pow-le-pow_right {n = 2} (omega arith) {j = 7} (omega arith)

-- No wrap-around in the waste of an order that fits.
waste_lem :
    (size o : ℕ)
    → Fits size o
    → slab_waste size o + (slab_nobjs size o * (size + 8) + 16) ≡ 4096 * 2 ^ o
unfolding slab_waste slab_size
waste_lem size o f = let (_, (p, _)) = nobjs-Full size o f in omega (arith, p, power_most o f.0)

-- The order found is large enough, and the orders below are not.
abbrev pub Minimal : ℕ → ℕ → Type 0
Minimal size m = Fits size m × ((j : ℕ) → j < m → 4096 * 2 ^ j < size + 24)

one_object : (size : ℕ) → size + 24 ≤ 524288 → slab_size size 1 ≡ size + 24
unfolding slab_size
one_object size h = omega arith

min_order-Minimal :
    (k o size : ℕ)
    → suc k + o ≡ 8
    → size + 24 ≤ 524288
    → ((j : ℕ) → j < o → 4096 * 2 ^ j < size + 24)
    → (m : ℕ) × ((min_order (suc k) o (size + 24) ≡ some m) × Minimal size m)
unfolding min_order
min_order-Minimal zero o size h l d =
    let e : o ≡ 7 = omega arith in
    let e' : is_large o (size + 24) ≡ true = rw e (ground arith) in
    rw e' (o, (refl, ((omega arith, ground arith), d)))
min_order-Minimal (suc k) o size h l d = elim (Bool-cases (is_large o (size + 24))) [
  | inl e ↦ rw e (o, (refl, ((omega arith, ground arith), d)))
  | inr e ↦
      let d' : (j : ℕ) → j < suc o → 4096 * 2 ^ j < size + 24 = λ j w. elim (Bool-cases (ltb j o)) [
        | inl f ↦ d j (ground arith)
        | inr f ↦ let z : j ≡ o = ground arith in rw z (ground arith)
      ] in
      rw e (min_order-Minimal k (suc o) size (omega arith) l d')
]

-- Of the orders tried, none wastes less.
abbrev pub Best : ℕ → ℕ → ℕ → ℕ → ℕ → Type 0
Best size k o b r =
    Fits size r
    × ((slab_waste size r ≤ slab_waste size b)
        × ((j : ℕ) → o ≤ j → j < o + k → slab_waste size r ≤ slab_waste size j))

later :
    (k o j r size : ℕ)
    → slab_waste size r ≤ slab_waste size o
    → ((i : ℕ) → suc o ≤ i → i < suc o + k → slab_waste size r ≤ slab_waste size i)
    → o ≤ j
    → j < o + suc k
    → slab_waste size r ≤ slab_waste size j
later k o j r size l d p q = elim (Bool-cases (j == o)) [
  | inl e ↦ let z : j ≡ o = ground arith in rw z l
  | inr e ↦ d j (ground arith) (omega arith)
]

best_order-Best :
    (k o b size : ℕ)
    → Fits size b
    → ((j : ℕ) → o ≤ j → j < o + k → Fits size j)
    → Best size k o b (best_order k o b (slab_waste size b) size)
unfolding best_order
best_order-Best zero o b size f h = (f, (omega arith, (λ j l m. absurd (omega arith))))
best_order-Best (suc k) o b size f h =
    elim (Bool-cases (ltb (slab_waste size o) (slab_waste size b))) [
      | inl e ↦
          let (f', (l, d)) =
            best_order-Best k (suc o) o size (h o (omega arith) (omega arith))
              (λ j l m. h j (omega arith) (omega arith)) in
          rw e (
            f',
            (
              ground arith,
              (λ j p q. later k o j (best_order k (suc o) o (slab_waste size o) size) size l d p q),
            ),
          )
      | inr e ↦
          let (f', (l, d)) =
            best_order-Best k (suc o) b size f (λ j l m. h j (omega arith) (omega arith)) in
          rw e (
            f',
            (
              l,
              (λ j p q.
                  later k o j (best_order k (suc o) b (slab_waste size b) size) size (ground arith)
                    d p q),
            ),
          )
    ]

Fits-later : (size m j : ℕ) → Fits size m → m ≤ j → j < 8 → Fits size j
Fits-later size m j (_, h) l k =
    let p = pow-le-pow_right {n = 2} (omega arith) {i = m} {j = j} l in (k, omega (arith, p, h))

-- The order chosen, from the least one that is large enough.
chosen :
    (m size : ℕ)
    → Minimal size m
    → Fits size (best_order (4 - m) (suc m) m (slab_waste size m) size)
      × ((j : ℕ)
          → j < 5
          → Fits size j
          → slab_waste size (best_order (4 - m) (suc m) m (slab_waste size m) size)
            ≤ slab_waste size j)
chosen m size (f, d) =
    let (f', (l, b)) =
      best_order-Best (4 - m) (suc m) m size f
        (λ j p q. Fits-later size m j f (omega arith) (omega arith)) in
    (
      f',
      (λ j p q. elim (Bool-cases (ltb m j)) [
        | inl e ↦ b j (ground arith) (ground arith)
        | inr e ↦ elim (Bool-cases (ltb j m)) [
          | inl z ↦ absurd (ground (arith, d j, q.1))
          | inr z ↦ let y : j ≡ m = ground arith in rw y l
        ]
      ]),
    )

-- For objects of at most 524264 bytes, red zones included, `_calc_slab_size` finds a size: a slab holds an
-- object at least; as many as fit, with the header, into its pages; and no order below SLAB_MAX_ORDER
-- that holds an object wastes fewer bytes.
pub calc_slab_size-Full :
    (size : ℕ)
    → size + 24 ≤ 524288
    → (o : ℕ) × ((n : ℕ) × ((calc_slab_size size ≡ some (o, n))
          × (Fits size o
              × (Full size o n
                  × ((j : ℕ) → j < 5 → Fits size j → slab_waste size o ≤ slab_waste size j)))))
unfolding calc_slab_size
calc_slab_size-Full size h =
    let (m, (e, w)) = min_order-Minimal 7 0 size refl h (λ j l. absurd (omega arith)) in
    let (f, b) = chosen m size w in
    let e' : min_order 8 0 (slab_size size 1) ≡ some m = rw (one_object size h) e in
    let r = best_order (4 - m) (suc m) m (slab_waste size m) size in
    rw e' (r, (slab_nobjs size r, (refl, (f, (nobjs-Full size r f, b)))))
