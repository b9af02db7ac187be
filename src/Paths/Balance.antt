-- ===== src/Paths/Balance.antt =====
-- kernel/fs/vfs_syscall.c: the calls on paths leave every vnode's count as it was.
use abmp.Common.{
  ℕ, ◌<◌, arith, ◌≡◌, refl, sym, ◌∙◌, ltb, true, false, ◌||◌, Option, none, some, List, ◌==◌, ◌>>=◌,
  length, Bool-cases, inl, inr,
}
use abmp.Paths.{
  Ret, err, World, Same, Plus, Op, mknod, Fs, is_dot, is_dot_dot, Resolved, fails, at, Looked,
  result, no_result, vput, put_and, lookup,
}
use abmp.Paths.Resolve.{Ready, Settles, Sets, vput-Plus, vput_both, lookup-Sets, dir_namev-Settled}
use abmp.Paths.Calls.{resolved, operate, checked, mknod_new, on_path, do_mknod}

-- The call comes back, and every count is what it was in `w`.
abbrev pub Balanced : {S : Type 0} → World S → Option (Ret × World S) → Type 0
Balanced {S} w m = (r : Ret) × ((w' : World S) × ((m ≡ some (r, w')) × Same w w'))

module _ {S : Type 0} (fs : Fs S) where
  pub put-Balanced : (v : ℕ) (r : Ret) (w w' : World S) → Plus v w w' → Balanced w (put_and v r w')
  put-Balanced v r w w' h = let (w'', (p, k)) = vput-Plus v w w' h in (r, (w'', (rw p refl, k)))

  -- Two references put down, in the order in which they were taken.
  pub puts-Balanced :
      (d v : ℕ) (r : Ret) (w w₁ w₂ : World S)
      → Plus d w w₁
      → Plus v w₁ w₂
      → Balanced w (vput d w₂ >>= λ w'. put_and v r w')
  puts-Balanced d v r w w₁ w₂ h k =
      let (w', (p, q)) = vput_both d v w w₁ w₂ h k in rw p (put-Balanced v r w w' q)

  pub operate-Same :
      (o : Op) (d : ℕ) (name : List ℕ) (len : ℕ) (w : World S)
      → fs.is_dir d ≡ true
      → (r : Ret) × ((w' : World S) × ((operate fs o d name len w ≡ some (r, w')) × Same w w'))
  unfolding operate
  operate-Same o d name len w h = (
    (fs.change o d name len w).0,
    (
      (fs.change o d name len w).1,
      (rw (fs.dir_supports d h) refl, fs.change_counts o d name len w),
    ),
  )

  -- What holds of the directory and the name that `dir_namev` finds from the state `w`.
  record Base (w : World S) (d : ℕ) (name : List ℕ) (w' : World S) : Type 0 where
    one : Plus d w w'
    dir : fs.is_dir d ≡ true
    plain : (is_dot name || is_dot_dot name) ≡ false

  abbrev Keeps : World S → (ℕ → List ℕ → ℕ → World S → Option (Ret × World S)) → Type 0
  Keeps w k =
      (d : ℕ) (name : List ℕ) (len : ℕ) (w' : World S)
      → Base w d name w'
      → Balanced w (k d name len w')

  resolved-Balanced :
      (w : World S) (s : List ℕ) (r : Resolved) (w' : World S)
      (k : ℕ → List ℕ → ℕ → World S → Option (Ret × World S))
      → Settles fs w s (r, w')
      → Keeps w k
      → Balanced w (resolved fs k (r, w'))
  resolved-Balanced w s (fails e) w' k h g = (err e, (w', (refl, h)))
  resolved-Balanced w s (at d name len) w' k h g =
      g d name len w' (record { one = h.0; dir = h.1.0; plain = h.1.1.0 })

  checked-Keeps :
      (w : World S) (k : ℕ → List ℕ → ℕ → World S → Option (Ret × World S))
      → Keeps w k
      → Keeps w (checked fs k)
  checked-Keeps w k g d name len w' b = elim (Bool-cases (ltb 28 (length name))) [
    | inl e ↦ rw e (put-Balanced d (err 36) w w' b.one)
    | inr e ↦ rw (e, b.dir) (g d name len w' b)
  ]

  -- Nothing is looked up as "." or "..".
  set_result :
      (w w₁ w₂ : World S) (d : ℕ) (name : List ℕ) {m : Option (Ret × World S)}
      → Base w d name w₁
      → Sets fs w₁ name (result none, w₂)
      → Balanced w m
  set_result w w₁ w₂ d name b h = let e : true ≡ false = sym h.1 ∙ b.plain in cc

  mknod_new-Balanced :
      (mode dev d len : ℕ) (name : List ℕ) (w w₁ w₂ : World S) (l : Looked)
      → ((v : ℕ) → fs.is_dir v ≡ true → 0 < w.refs v)
      → Base w d name w₁
      → Sets fs w₁ name (l, w₂)
      → Balanced w (mknod_new fs mode dev d name len (l, w₂))
  unfolding mknod_new
  mknod_new-Balanced mode dev d len name w w₁ w₂ (result none) used b h =
      set_result w w₁ w₂ d name b h
  mknod_new-Balanced mode dev d len name w w₁ w₂ (result (some v)) used b h =
      puts-Balanced d v (err 17) w w₁ w₂ b.one h
  mknod_new-Balanced mode dev d len name w w₁ w₂ (no_result e) used b h =
      let (w₃, (p, q)) = vput-Plus d w w₂ (λ u. h u ∙ b.one u) in
      let (r, (w₄, (y, z))) = operate-Same (mknod mode dev) d name len w₃ b.dir in
      let k : ltb 0 (w₃.refs d) ≡ true = ground (arith, q d, used d b.dir) in
      (r, (w₄, (rw (p, k, y) refl, λ u. z u ∙ q u)))

  module _ (root start : ℕ) (path : List ℕ) (a : ℕ) (w : World S)
      (ready : Ready root start path a w) where
    path-Balanced :
        (k : ℕ → List ℕ → ℕ → World S → Option (Ret × World S))
        → Keeps w k
        → Balanced w (on_path fs root start k path a w)
    path-Balanced k g = elim (Bool-cases (ltb 1024 (length path))) [
      | inl e ↦ (err 36, (w, (rw e refl, λ u. refl)))
      | inr e ↦
          let ((r, w'), (p, h)) = dir_namev-Settled fs root start path a w ready in
          rw (e, p) (resolved-Balanced w path r w' k h g)
    ]

    -- The directory and the result are in hand: whichever way a call goes on from `lookup`.
    looks :
        (d len : ℕ) (name : List ℕ) (w' : World S)
        → Sets fs w' name ((lookup fs d name len w').0, (lookup fs d name len w').1)
    looks d len name w' = lookup-Sets fs d name len w'

    -- `do_mknod` leaves the references as they were where every directory has one, so that the one it
    -- makes the entry in is in use after its `vput`.
    pub do_mknod-Balanced :
        (mode dev : ℕ)
        → ((v : ℕ) → fs.is_dir v ≡ true → 0 < w.refs v)
        → Balanced w (do_mknod fs root start mode dev path a w)
    unfolding do_mknod
    do_mknod-Balanced mode dev used = elim (Bool-cases (ltb 1024 (length path))) [
      | inl e ↦ (err 36, (w, (rw e refl, λ u. refl)))
      | inr e ↦ elim (Bool-cases (mode == 256 || mode == 1024)) [
        | inl m ↦
            rw (e, m)
              (rw e at (
                path-Balanced _ (
                  checked-Keeps w _ (λ d name len w' b.
                    mknod_new-Balanced mode dev d len name w w' _ _ used b (looks d len name w')))))
        | inr m ↦ (err 22, (w, (rw (e, m) refl, λ u. refl)))
      ]
    ]
