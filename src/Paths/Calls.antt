-- ===== src/Paths/Calls.antt =====
-- kernel/fs/vfs_syscall.c: the calls on paths. No path is NULL; the results of `dir_namev` are not
-- NULL where it succeeds.
use abmp.Common.{
  ℕ, ltb, Bool, true, false, not, ◌||◌, Option, none, some, List, ◌==◌, if◌then◌else◌, ◌>>=◌, ◌>>◌,
  kassert, length,
}
use abmp.Paths.{
  Ret, ok, err, World, Op, mknod, mkdir, rmdir, unlink, Fs, is_dot, is_dot_dot, Resolved, fails, at,
  Looked, result, no_result, vput, put_and, lookup, dir_namev,
}

abbrev pub is_error : Ret → Bool
is_error (ok n) = false
is_error (err e) = true

module _ {S : Type 0} (fs : Fs S) where
  -- The rest of a call once `dir_namev` has found the directory.
  abbrev pub resolved :
      (ℕ → List ℕ → ℕ → World S → Option (Ret × World S))
      → Resolved × World S
      → Option (Ret × World S)
  resolved k (fails e, w) = some (err e, w)
  resolved k (at d name len, w) = k d name len w

  -- The vnode operation, which the directory has to have.
  unfoldable pub operate : Op → ℕ → List ℕ → ℕ → World S → Option (Ret × World S)
  operate o d name len w = kassert (fs.supports d) >> some (fs.change o d name len w)

  -- The tests that most calls begin with.
  abbrev pub checked :
      (ℕ → List ℕ → ℕ → World S → Option (Ret × World S))
      → ℕ
      → List ℕ
      → ℕ
      → World S
      → Option (Ret × World S)
  checked k d name len w =
      if ltb 28 (length name)
      then put_and d (err 36) w
      else if not (fs.is_dir d)
      then put_and d (err 20) w
      else k d name len w

  -- The path exists: both vnodes are put down.
  abbrev pub exists : ℕ → Option ℕ → World S → Option (Ret × World S)
  exists d none w = none
  exists d (some v) w = vput d w >>= λ w'. put_and v (err 17) w'

  -- `do_mknod` puts the directory down before it uses it, which fails where no reference is left.
  unfoldable pub mknod_new : ℕ → ℕ → ℕ → List ℕ → ℕ → Looked × World S → Option (Ret × World S)
  unfolding operate
  mknod_new mode dev d name len (result r, w) = exists d r w
  mknod_new mode dev d name len (no_result e, w) =
      vput d w >>= λ w'. kassert (ltb 0 (w'.refs d)) >> operate (mknod mode dev) d name len w'

  unfoldable pub mkdir_new : ℕ → List ℕ → ℕ → Looked × World S → Option (Ret × World S)
  unfolding operate
  mkdir_new d name len (result r, w) = exists d r w
  mkdir_new d name len (no_result e, w) = operate mkdir d name len w >>= λ (r, w'). put_and d r w'

  unfoldable pub rmdir_old : ℕ → List ℕ → ℕ → Looked × World S → Option (Ret × World S)
  unfolding operate
  rmdir_old d name len (no_result e, w) = put_and d (err e) w
  rmdir_old d name len (result none, w) = none
  rmdir_old d name len (result (some v), w) = do
    (r, w₁) ← operate rmdir d name len w
    w₂ ← vput v w₁
    put_and d r w₂

  unfoldable pub unlink_old : ℕ → List ℕ → ℕ → Looked × World S → Option (Ret × World S)
  unfolding operate
  unlink_old d name len (no_result e, w) = put_and d (err e) w
  unlink_old d name len (result none, w) = none
  unlink_old d name len (result (some v), w) =
      if fs.is_dir v
      then (vput d w >>= λ w'. put_and v (err 21) w')
      else (do (r, w₁) ← operate unlink d name len w; w₂ ← vput d w₁; put_and v r w₂)

  unfoldable pub stat_old : ℕ → Looked × World S → Option (Ret × World S)
  stat_old d (no_result e, w) = put_and d (err e) w
  stat_old d (result none, w) = none
  stat_old d (result (some v), w) = do
    kassert (fs.supports d)
    w₁ ← vput d w
    put_and v (fs.stat v w) w₁

  module _ (root start : ℕ) where
    abbrev pub on_path :
        (ℕ → List ℕ → ℕ → World S → Option (Ret × World S))
        → List ℕ
        → ℕ
        → World S
        → Option (Ret × World S)
    on_path k path a w =
        if ltb 1024 (length path)
        then some (err 36, w)
        else (dir_namev fs root start path a w >>= resolved k)

    -- S_IFCHR is 0x0100 and S_IFBLK is 0x0400.
    unfoldable pub do_mknod : ℕ → ℕ → List ℕ → ℕ → World S → Option (Ret × World S)
    unfolding mknod_new
    do_mknod mode dev path a w =
        if ltb 1024 (length path)
        then some (err 36, w)
        else if not (mode == 256 || mode == 1024)
        then some (err 22, w)
        else on_path
            (checked (λ d name len w'. mknod_new mode dev d name len (lookup fs d name len w')))
            path a w

    unfoldable pub do_mkdir : List ℕ → ℕ → World S → Option (Ret × World S)
    unfolding mkdir_new
    do_mkdir = on_path (checked (λ d name len w. mkdir_new d name len (lookup fs d name len w)))

    unfoldable pub do_rmdir : List ℕ → ℕ → World S → Option (Ret × World S)
    unfolding rmdir_old
    do_rmdir = on_path (
        checked (λ d name len w.
          if is_dot name
          then put_and d (err 22) w
          else if is_dot_dot name
          then put_and d (err 39) w
          else rmdir_old d name len (lookup fs d name len w)))

    -- The test of the vnode's mode comes before the one of the name's length.
    unfoldable pub do_unlink : List ℕ → ℕ → World S → Option (Ret × World S)
    unfolding unlink_old
    do_unlink = on_path (λ d name len w.
        if not (fs.is_dir d)
        then put_and d (err 20) w
        else if ltb 28 (length name)
        then put_and d (err 36) w
        else unlink_old d name len (lookup fs d name len w))

    unfoldable pub do_stat : List ℕ → ℕ → World S → Option (Ret × World S)
    unfolding stat_old
    do_stat = on_path (checked (λ d name len w. stat_old d (lookup fs d name len w)))
