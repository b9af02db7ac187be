-- ===== src/Files/Opened.antt =====
-- kernel/fs/open.c: what do_open does to the descriptors, the files and the vnodes.
use abmp.Common.{
  ℕ, ◌<◌, ◌≡◌, refl, ap, ◌∙◌, inl, inr, ltb, Bool, ◌&&◌, none, some, List, set, length, arith,
  Bool-cases, Option-cases,
}
use abmp.Files.{Fds, Ret, ok, err, slot, set_file, set_fd, get_empty_fd}
use abmp.Files.Refs.{Held, fill-Held}
use abmp.Files.Calls.{empty_fd_lem}
use abmp.Files.Open.{
  mode_of_flags, to_write, give_up, give_up_vnode, open_vnode, open_mode, open_fd, do_open,
}
use abmp.Paths.{World, Same, Plus, Fs, at, dir_namev}
use abmp.Paths.Resolve.{Ready, vput-Plus}
use abmp.Paths.Shared.{at-Plus, open_namev_lem}
use abmp.Files.Fresh.{
  Only, fresh_file, fget_new-Only, Only-new, set_mode-Only, set_vnode-Only, fput-Only, free-Held,
  used-Held, mode_of_flags-bound,
}

module _ {S : Type 0} (fs : Fs S) (no_device : ℕ → Bool) (root start : ℕ) where
  -- A result of `do_open` where the path leads to the vnode `v`: the descriptor that was free names the
  -- new file on that vnode, which has one reference more, or nothing is left behind.
  abbrev pub Outcome : ℕ → ℕ → Fds → World S → Ret × (Fds × World S) → Type 0
  Outcome new v s w (err e, (s', w')) = Held none s' × ((s'.fds ≡ s.fds) × Same w w')
  Outcome new v s w (ok fd, (s', w')) =
      Held none s'
      × ((slot s.fds fd ≡ none)
          × ((s'.fds ≡ set s.fds fd (some new)) × (((s'.file new).vnode ≡ some v) × Plus v w w')))

  give_up-Outcome :
      (new v m e : ℕ) (s s' : Fds) (w : World S)
      → Held none s
      → (s.file new).refcount ≡ 0
      → Only new (fresh_file m 1 none) s s'
      → m < 8
      → (r : Ret × (Fds × World S)) × ((give_up new e s' w ≡ some r) × Outcome new v s w r)
  unfolding give_up
  give_up-Outcome new v m e s s' w inv z o h =
      let (s'', (p, q)) = fput-Only new m s s' o h in
      ((err e, (s'', w)), (rw p refl, (free-Held new m s s'' inv z q h, (q.table, λ u. refl))))

  give_up_vnode-Outcome :
      (new v m e : ℕ) (s s' : Fds) (w w' : World S)
      → Held none s
      → (s.file new).refcount ≡ 0
      → Only new (fresh_file m 1 none) s s'
      → m < 8
      → Plus v w w'
      → (r : Ret × (Fds × World S)) × ((give_up_vnode new e v s' w' ≡ some r) × Outcome new v s w r)
  unfolding give_up_vnode
  give_up_vnode-Outcome new v m e s s' w w' inv z o h k =
      let (s'', (p, q)) = fput-Only new m s s' o h in
      let (w'', (x, y)) = vput-Plus v w w' k in
      ((err e, (s'', w'')), (rw (p, x) refl, (free-Held new m s s'' inv z q h, (q.table, y))))

  open_vnode-Outcome :
      (new fd oflags v m : ℕ) (s s' : Fds) (w w' : World S)
      → Held none s
      → (s.file new).refcount ≡ 0
      → Only new (fresh_file m 1 none) s s'
      → m < 8
      → get_empty_fd s.fds ≡ some fd
      → Plus v w w'
      → (r : Ret × (Fds × World S)) × ((open_vnode fs no_device root start new fd oflags s' (v, w')
            ≡ some r)
          × Outcome new v s w r)
  unfolding open_vnode
  open_vnode-Outcome new fd oflags v m s s' w w' inv z o h e k =
      elim (Bool-cases (fs.is_dir v && to_write oflags)) [
        | inl a ↦ rw a (give_up_vnode-Outcome new v m 21 s s' w w' inv z o h k)
        | inr a ↦ elim (Bool-cases (no_device v)) [
          | inl b ↦ rw (a, b) (give_up_vnode-Outcome new v m 6 s s' w w' inv z o h k)
          | inr b ↦
              let (l, (q, u)) = empty_fd_lem s.fds fd e in
              let x = fresh_file m 1 (some v) in
              let s₂ = set_file new (record (s'.file new) { vnode = some v }) s' in
              let y = set_vnode-Only new m v s s' o in
              let hd = used-Held new m v s s₂ inv z y h in
              (
                (ok fd, (set_fd fd (some new) s₂, w')),
                (
                  rw (a, b) refl,
                  (
                    fill-Held fd new s₂ hd (omega (arith, l, inv.table))
                        (ap (λ t. slot t fd) y.table ∙ q),
                    (
                      q,
                      (
                        ap (λ t. set t fd (some new)) y.table,
                        (ap (λ g. g.vnode) (Only-new new x s s₂ y), k),
                      ),
                    ),
                  ),
                ),
              )
        ]
      ]

  -- With every count right, do_open with memory for the new file, of a path that resolves, returns, on
  -- every branch: a free descriptor names the new file, whose vnode has one reference more,
  -- or an error is returned, and the descriptors and the references are as before. Every count is
  -- right again.
  pub open-Outcome :
      (new oflags : ℕ) (path name : List ℕ) (a d len : ℕ) (s : Fds) (w w₁ : World S)
      → Held none s
      → (s.file new).refcount ≡ 0
      → Ready root start path a w
      → dir_namev fs root start path a w ≡ some (at d name len, w₁)
      → (r : Ret × (Fds × World S)) × ((do_open fs no_device root start (some new) path a oflags s w
            ≡ some r)
          × Outcome new d s w r)
  unfolding do_open open_fd open_mode
  open-Outcome new oflags path name a d len s w w₁ inv z ready h =
      let k = (at-Plus fs root start path name a d len w w₁ ready h).0 in
      let n = open_namev_lem fs root start path name a d len w w₁ h in
      let (s₁, (p, o)) = fget_new-Only new s in
      elim (Option-cases (get_empty_fd s.fds)) [
        | inl e ↦ ((err 24, (s, w)), (rw e refl, (inv, (refl, λ u. refl))))
        | inr (fd, e) ↦ elim (Bool-cases (ltb 28 (length path))) [
          | inl l ↦ rw (e, p, l) (give_up-Outcome new d 0 36 s s₁ w inv z o (omega arith))
          | inr l ↦ elim (Option-cases (mode_of_flags oflags)) [
            | inl f ↦ rw (e, p, l, f) (give_up-Outcome new d 0 22 s s₁ w inv z o (omega arith))
            | inr (m, f) ↦
                let y = set_mode-Only new 0 m s s₁ o in
                rw (e, p, l, f, n)
                  (open_vnode-Outcome new fd oflags d m s
                    (set_file new (record (s₁.file new) { mode = m }) s₁) w w₁ inv z y
                    (mode_of_flags-bound oflags m f) e k)
          ]
        ]
      ]
