-- ===== src/Paths/Link.antt =====
-- kernel/fs/vfs_syscall.c: `do_link`, `do_rename` and `do_chdir`.
use abmp.Common.{ℕ, ltb, not, ◌||◌, Option, none, some, List, if◌then◌else◌, ◌>>=◌, length}
use abmp.Paths.{
  Ret, ok, err, World, link, Fs, Resolved, fails, at, Looked, result, no_result, vput, put_and,
  lookup, dir_namev, open_namev,
}
use abmp.Paths.Calls.{is_error, operate, exists, do_rmdir, do_unlink}

module _ {S : Type 0} (fs : Fs S) where
  unfoldable pub link_new : ℕ → ℕ → List ℕ → ℕ → Looked × World S → Option (Ret × World S)
  unfolding operate
  link_new node₁ node₂ name len (result r, w) = vput node₁ w >>= λ w'. exists fs node₂ r w'
  link_new node₁ node₂ name len (no_result e, w) = do
    (r, w₁) ← operate fs (link node₁) node₂ name len w
    w₂ ← vput node₁ w₁
    put_and node₂ r w₂

  -- Where the path to link to does not resolve, or not to a directory, no reference is put down.
  unfoldable pub link_to : ℕ → Resolved × World S → Option (Ret × World S)
  unfolding link_new
  link_to node₁ (fails e, w) = some (err e, w)
  link_to node₁ (at node₂ name len, w) =
      if ltb 28 (length name)
      then (vput node₁ w >>= λ w'. put_and node₂ (err 36) w')
      else if not (fs.is_dir node₂)
      then some (err 20, w)
      else link_new node₁ node₂ name len (lookup fs node₂ name len w)

  module _ (root start : ℕ) where
    -- Each path comes with its address.
    unfoldable pub do_link : List ℕ → ℕ → List ℕ → ℕ → World S → Option (Ret × World S)
    unfolding open_namev link_to
    do_link from a to b w =
        if ltb 1024 (length from) || ltb 1024 (length to) then some (err 36, w) else (do
          (node₁, w₁) ← open_namev fs root start from a w
          r ← dir_namev fs root start to b w₁
          link_to node₁ r)

    unfoldable pub remove_old : List ℕ → ℕ → ℕ → Looked × World S → Option (Ret × World S)
    remove_old old a node₂ (no_result e, w) = put_and node₂ (err e) w
    remove_old old a node₂ (result none, w) = none
    remove_old old a node₂ (result (some v), w) = do
      w₁ ← vput v w
      (r, w₂) ←
          (if fs.is_dir v
            then do_rmdir fs root start old a w₁
            else do_unlink fs root start old a w₁)
      put_and node₂ r w₂

    -- Where the old path does not resolve, the vnode that is put down was never set.
    unfoldable pub rename_from : List ℕ → ℕ → Resolved × World S → Option (Ret × World S)
    unfolding remove_old
    rename_from old a (fails e, w) = none
    rename_from old a (at node₂ name len, w) = remove_old old a node₂ (lookup fs node₂ name len w)

    unfoldable pub do_rename : List ℕ → ℕ → List ℕ → ℕ → World S → Option (Ret × World S)
    unfolding do_link rename_from
    do_rename old a new b w = do
      (r, w₁) ← do_link old a new b w
      (if is_error r
          then some (r, w₁)
          else (dir_namev fs root start old a w₁ >>= λ q. rename_from old a q))

    -- The result, and the working directory after the call; it was `start`.
    unfoldable pub do_chdir : List ℕ → ℕ → World S → Option ((Ret × ℕ) × World S)
    unfolding open_namev
    do_chdir path a w = if ltb 1024 (length path) then some ((err 36, start), w) else (do
      (d, w₁) ← open_namev fs root start path a w
      (if not (fs.is_dir d) then put_and d (err 20, start) w₁ else put_and start (ok 0, d) w₁))
