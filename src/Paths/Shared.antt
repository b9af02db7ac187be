-- ===== src/Paths/Shared.antt =====
-- kernel/fs/vfs_syscall.c: the counts of the vnodes under `do_link` and `do_chdir`.
use abmp.Common.{
  ℕ, ◌-◌, ◌<◌, ◌≡◌, refl, sym, subst, ◌∙◌, ◌⊎◌, ltb, true, false, Option, some, List, length, arith,
}
use abmp.Paths.{Ret, ok, err, World, Plus, Fs, Resolved, at, vput, dir_namev, open_namev, set_ref}
use abmp.Paths.Resolve.{Ready, Settles, dir_namev-Settled}
use abmp.Paths.Balance.{Balanced}
use abmp.Paths.Link.{do_chdir}

module _ {S : Type 0} where
  put-Plus :
      (v : ℕ) (w : World S) → 0 < w.refs v → (w' : World S) × ((vput v w ≡ some w') × Plus v w' w)
  unfolding vput set_ref
  put-Plus v w h =
      let p : ltb 0 (w.refs v) ≡ true = ground arith in
      (set_ref v (w.refs v - 1) w, (rw p refl, λ u. ground arith))

  still : (d v : ℕ) (w w' : World S) → Plus d w w' → 0 < w.refs v → 0 < w'.refs v
  still d v w w' h k = ground (arith, h v)

  -- The old path leads to `x`: every count is as before, or the new path does not resolve, the call
  -- fails, and `x` has a reference more.
  abbrev pub Linked : ℕ → World S → Option (Ret × World S) → Type 0
  Linked x w m =
      Balanced w m ⊎ ((e : ℕ) × ((w' : World S) × ((m ≡ some (err e, w')) × Plus x w w')))

module _ {S : Type 0} (fs : Fs S) where
  module _ (root start : ℕ) where
    pub open_namev_lem :
        (path name : List ℕ) (a d len : ℕ) (w w' : World S)
        → dir_namev fs root start path a w ≡ some (at d name len, w')
        → open_namev fs root start path a w ≡ some (d, w')
    unfolding open_namev
    open_namev_lem path name a d len w w' h = rw (open_namev, h) refl

    pub at-Plus :
        (path name : List ℕ) (a d len : ℕ) (w w' : World S)
        → Ready root start path a w
        → dir_namev fs root start path a w ≡ some (at d name len, w')
        → Settles fs w path (at d name len, w')
    at-Plus path name a d len w w' ready h =
        let ((r, w''), (p, g)) = dir_namev-Settled fs root start path a w ready in
        let e : ◌≡◌ {A = Option (Resolved × World S)} (some (r, w'')) (some (at d name len, w')) =
          sym p ∙ h in
        let q : ◌≡◌ {A = Resolved × World S} (r, w'') (at d name len, w') = cc in
        subst (λ x. Settles fs w path x) q g

    -- A path that resolves is made the working directory: the call returns 0, and the new directory
    -- has one reference more, and the old one less.
    pub chdir-counts :
        (path name : List ℕ) (a d len : ℕ) (w w₁ : World S)
        → Ready root start path a w
        → length path < 1025
        → dir_namev fs root start path a w ≡ some (at d name len, w₁)
        → (w' : World S) × ((do_chdir fs root start path a w ≡ some ((ok 0, d), w'))
            × Plus start w' w₁
            × Plus d w w₁)
    unfolding do_chdir
    chdir-counts path name a d len w w₁ ready hl h =
        let o : ltb 1024 (length path) ≡ false = ground arith in
        let hx = at-Plus path name a d len w w₁ ready h in
        let (w', (p, q)) = put-Plus start w₁ (still d start w w₁ hx.0 ready.started) in
        (w', (rw (o, open_namev_lem path name a d len w w₁ h, hx.1.0, p) refl, q, hx.0))
