-- ===== src/Paths/Resolve.antt =====
-- kernel/fs/namev.c: `dir_namev` comes to an end with every count but the result's as it was.
use abmp.Common.{
  ℕ, zero, suc, ◌+◌, ◌-◌, ◌<◌, ◌≡◌, refl, sym, ap, ◌∙◌, inl, inr, ltb, true, false, not, ◌&&◌, ◌||◌,
  Option, none, some, List, [], ◌∷◌, ◌==◌, length, u32, arith, Bool-cases, Option-cases,
}
use abmp.Paths.{
  Found, there, missing, World, Same, Plus, Counted, Fs, is_dot, is_dot_dot, component, from_slash,
  skip_slashes, next_part, Resolved, fails, at, Looked, result, no_result, looked, nothing_at_end,
  set_ref, vref, vput, put_and, lookup, enter, walk, tail, dir_namev, slash,
}
use abmp.Paths.Slashes.{
  ends_in_slash, from_slash-ends, skip_slashes-ends, all_slashes, from_slash-cons,
  length-from_slash, from_slash-dots,
}

module _ {S : Type 0} where
  -- A reference that a state has more than another is put down.
  pub vput-Plus :
      (v : ℕ) (w w' : World S)
      → Plus v w w'
      → (w'' : World S) × ((vput v w' ≡ some w'') × Same w w'')
  unfolding vput set_ref
  vput-Plus v w w' h =
      let p : ltb 0 (w'.refs v) ≡ true = ground (arith, h v) in
      (set_ref v (w'.refs v - 1) w', (rw p refl, λ u. ground (arith, h u, h v)))

  -- The same where a second reference was taken meanwhile.
  pub vput_both :
      (v x : ℕ) (w w₁ w₂ : World S)
      → Plus v w w₁
      → Plus x w₁ w₂
      → (w' : World S) × ((vput v w₂ ≡ some w') × Plus x w w')
  unfolding vput set_ref
  vput_both v x w w₁ w₂ h k =
      let p : ltb 0 (w₂.refs v) ≡ true = ground (arith, h v, k v) in
      (set_ref v (w₂.refs v - 1) w₂, (rw p refl, λ u. ground (arith, h u, h v, k u, k v)))

module _ {S : Type 0} (fs : Fs S) where
  abbrev pub Settles : World S → List ℕ → Resolved × World S → Type 0
  Settles w s (fails e, w') = Same w w'
  Settles w s (at d name len, w') =
      Plus d w w'
      × ((fs.is_dir d ≡ true)
          × (((is_dot name || is_dot_dot name) ≡ false) × (ends_in_slash s ≡ true)))

  -- What `lookup` does to the counts; it sets no result for "." and ".." alone.
  abbrev pub Sets : World S → List ℕ → Looked × World S → Type 0
  Sets w name (result none, w') = Same w w' × ((is_dot name || is_dot_dot name) ≡ true)
  Sets w name (result (some v), w') = Plus v w w'
  Sets w name (no_result e, w') = Same w w'

  looked-Sets :
      (w : World S) (name : List ℕ) (f : Found) (w' : World S)
      → Counted w (f, w')
      → Sets w name (looked f, w')
  looked-Sets w name (there v) w' h = h
  looked-Sets w name (missing e) w' h = h

  pub lookup-Sets :
      (d : ℕ) (name : List ℕ) (len : ℕ) (w : World S) → Sets w name (lookup fs d name len w)
  unfolding lookup
  lookup-Sets d name len w = elim (Bool-cases (not (fs.is_dir d) || not (fs.can_lookup d))) [
    | inl e ↦ rw e (λ u. refl)
    | inr e ↦ elim (Bool-cases (is_dot name || is_dot_dot name)) [
      | inl k ↦ rw (e, k) (λ u. refl, k)
      | inr k ↦
          rw (e, k)
            (looked-Sets w name (fs.find d name len w).0 (fs.find d name len w).1
              (fs.find_counts d name len w))
    ]
  ]

  -- A call of `dir_namev` that comes back.
  abbrev pub Settled : World S → List ℕ → Option (Resolved × World S) → Type 0
  Settled w s m = (r : Resolved × World S) × ((m ≡ some r) × Settles w s r)

  put_and-Settled :
      (ptr e : ℕ) (s : List ℕ) (w w' : World S)
      → Plus ptr w w'
      → Settled w s (put_and ptr (fails e) w')
  put_and-Settled ptr e s w w' h =
      let (w'', (p, k)) = vput-Plus ptr w w' h in ((fails e, w''), (rw p refl, k))

  enter-Settled :
      (ptr : ℕ) (s name : List ℕ) (w w₁ : World S) (l : Looked) (w₂ : World S)
      (k : ℕ → World S → Option (Resolved × World S))
      → Plus ptr w w₁
      → Sets w₁ name (l, w₂)
      → (is_dot name || is_dot_dot name) ≡ false
      → ((v : ℕ) (w' : World S) → Plus v w w' → Settled w s (k v w'))
      → Settled w s (enter ptr k (l, w₂))
  enter-Settled ptr s name w w₁ (result none) w₂ k h g d c =
      let e : true ≡ false = sym g.1 ∙ d in cc
  enter-Settled ptr s name w w₁ (result (some v)) w₂ k h g d c =
      let (w', (p, q)) = vput_both ptr v w w₁ w₂ h g in rw p (c v w' q)
  enter-Settled ptr s name w w₁ (no_result e) w₂ k h g d c =
      put_and-Settled ptr e s w w₂ (λ u. g u ∙ h u)

  longer :
      (t s : List ℕ) (w : World S) (r : Resolved × World S)
      → (ends_in_slash t ≡ true → ends_in_slash s ≡ true)
      → Settles w t r
      → Settles w s r
  longer t s w (fails e, w') h g = g
  longer t s w (at d name len, w') h g = (g.0, (g.1.0, (g.1.1.0, h g.1.1.1)))

  -- The path lies in the upper half of memory, so that the difference of NULL and a pointer into it
  -- is a large positive int.
  abbrev pub Kernel : ℕ → ℕ → Type 0
  Kernel a n = (2147483648 < a) × (a + n + 28 < 4294967296)

  walk-Settled :
      (fuel ptr : ℕ) (s : List ℕ) (a : ℕ) (w w' : World S)
      → Plus ptr w w'
      → length s < fuel
      → Kernel a (length s)
      → Settled w s (walk fs fuel ptr s a w')
  unfolding walk
  walk-Settled zero ptr s a w w' h f k = absurd (omega arith)
  walk-Settled (suc fuel) ptr s a w w' h f k = elim (Bool-cases (fs.is_dir ptr)) [
    | inr e ↦ rw e (put_and-Settled ptr 20 s w w' h)
    | inl e ↦ elim (Option-cases (from_slash s)) [
      | inl n ↦
          let c : (ltb 28 (u32 (4294967296 - a)) && ltb (u32 (4294967296 - a)) 2147483648) ≡ true =
            ground (arith, k.0, k.1) in
          rw (e, n, c) (put_and-Settled ptr 36 s w w' h)
      | inr (r, n) ↦ elim (Bool-cases (ltb 28 (length (component s)))) [
        | inl g ↦ rw (e, n, g) (put_and-Settled ptr 36 s w w' h)
        | inr g ↦ elim (Bool-cases (nothing_at_end (skip_slashes r))) [
          | inl z ↦
              let (t, q) = from_slash-cons s r n in
              (
                (at ptr s (length (component s)), w'),
                (
                  rw (e, n, g, z) refl,
                  (
                    h,
                    (
                      e,
                      (
                        from_slash-dots s r n,
                        from_slash-ends s r n (rw q (all_slashes slash t (rw q at z))),
                      ),
                    ),
                  ),
                ),
              )
          | inr z ↦
              let c = next_part (from_slash s) in
              let b : c ≡ skip_slashes r = ap next_part n in
              let l : length c < length s = rw b (length-from_slash s r n) in
              rw (e, n, g, z)
                (enter-Settled ptr s s w w' (lookup fs ptr s (length (component s)) w').0
                  (lookup fs ptr s (length (component s)) w').1
                  (λ v w''. walk fs fuel v c (a + (length s - length c)) w'') h
                  (lookup-Sets ptr s (length (component s)) w') (from_slash-dots s r n)
                  (λ v w'' hv.
                    let (x, (p, y)) =
                      walk-Settled fuel v c (a + (length s - length c)) w w'' hv (omega (arith, l))
                        (omega (arith, l, k.0), omega (arith, l, k.1)) in
                    (
                      x,
                      (
                        p,
                        longer c s w x
                            (λ o. from_slash-ends s r n (skip_slashes-ends r (rw b at o))) y,
                      ),
                    )))
        ]
      ]
    ]
  ]

-- Paths in kernel memory, with the vnodes that they start at referenced.
pub record Ready {S : Type 0} (root start : ℕ) (path : List ℕ) (a : ℕ) (w : World S) : Type 0 where
  pub rooted : 0 < w.refs root
  pub started : 0 < w.refs start
  pub low : 2147483648 < a
  pub high : a + length path + 28 < 4294967296

vref-Plus :
    {S : Type 0} (v : ℕ) (w : World S)
    → 0 < w.refs v
    → (w' : World S) × ((vref v w ≡ some w') × Plus v w w')
unfolding vref set_ref
vref-Plus v w h =
    let p : ltb 0 (w.refs v) ≡ true = ground arith in
    (set_ref v (w.refs v + 1) w, (rw p refl, λ u. ground arith))

tail-ends : (s : List ℕ) → ends_in_slash (tail s) ≡ true → ends_in_slash s ≡ true
tail-ends [] h = h
tail-ends (c ∷ []) h = cc
tail-ends (c ∷ d ∷ s) h = h

pub dir_namev-Settled :
    {S : Type 0} (fs : Fs S) (root start : ℕ) (path : List ℕ) (a : ℕ) (w : World S)
    → Ready root start path a w
    → Settled fs w path (dir_namev fs root start path a w)
unfolding dir_namev
dir_namev-Settled fs root start [] a w h = ((fails 22, w), (refl, λ u. refl))
dir_namev-Settled fs root start (c ∷ s) a w h = elim (Bool-cases (ltb 1024 (length (c ∷ s)))) [
  | inl e ↦ ((fails 36, w), (rw e refl, λ u. refl))
  | inr e ↦ elim (Bool-cases (c == slash)) [
    | inl k ↦
        let (w', (p, q)) = vref-Plus root w h.rooted in
        let (r, (m, y)) =
          walk-Settled fs (length (c ∷ s)) root s (a + 1) w w' q (omega arith)
            (omega (arith, h.low), omega (arith, h.high)) in
        (r, (rw (e, k, p) m, longer fs s (c ∷ s) w r (tail-ends (c ∷ s)) y))
    | inr k ↦
        let (w', (p, q)) = vref-Plus start w h.started in
        let (r, (m, y)) =
          walk-Settled fs (suc (length (c ∷ s))) start (c ∷ s) a w w' q (omega arith)
            (h.low, h.high) in
        (r, (rw (e, k, p) m, y))
  ]
]
