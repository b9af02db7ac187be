-- ===== src/Ramfs/AsFs.antt =====
-- kernel/fs/ramfs/ramfs.c, `ramfs_dir_vops`: the file system in memory as one that the path names of Paths
-- are resolved in. The counts of the vnodes are those of the `World`.
use abmp.Common.{ℕ, refl, Bool, false, Option, none, some, List, ◌==◌, kassert, ◌&&◌, not}
use abmp.Files.{Ret, ok, err}
use abmp.Paths.{
  Found, there, missing, World, Op, mknod, mkdir, rmdir, unlink, link, Fs, Same, Counted,
}
use abmp.Ramfs.{Inode, Ramfs, mode_of, dir_mode, alloc_inode, dir_type, name_match}
use abmp.Ramfs.Calls.{
  dot, dot_dot, ramfs_lookup, room, special_type, mknod_in, ramfs_mknod, mkdir_in, ramfs_mkdir,
  ramfs_link, ramfs_unlink, ramfs_rmdir,
}
use abmp.Ramfs.Data.{ramfs_stat}
use abmp.Ramfs.References.{
  IfSome, IfSome-bind, then_any, Finds, Balances, lookup-Finds, mknod_at-Balances,
  mkdir_at-Balances, link_in-Balances, unlink_found-Balances, rmdir_found-Balances,
  alloc_inode-Even,
}

module _ (kmalloc page_alloc : Bool) where
  -- The operation of `ramfs_dir_vops`.
  abbrev pub ramfs_change : Op → ℕ → List ℕ → ℕ → Ramfs → Option (Ret × Ramfs)
  ramfs_change (mknod mode dev) d name len s = ramfs_mknod kmalloc page_alloc d name len mode dev s
  ramfs_change mkdir d name len s = ramfs_mkdir kmalloc page_alloc d name len s
  ramfs_change rmdir d name len s = ramfs_rmdir d name len s
  ramfs_change unlink d name len s = ramfs_unlink d name len s
  ramfs_change (link old) d name len s = ramfs_link old d name len s

  mknod_in-Balances :
      (d len mode dev : ℕ) (name : List ℕ) (s : Ramfs) (o : Option ℕ)
      → IfSome (Balances s) (mknod_in kmalloc page_alloc d name len mode dev s o)
  unfolding mknod_in
  mknod_in-Balances d len mode dev name s none = λ u. refl
  mknod_in-Balances d len mode dev name s (some i) =
      then_any (Balances s) (special_type mode) _ (λ t.
        mknod_at-Balances d i len name s (alloc_inode kmalloc page_alloc t dev s)
          (alloc_inode-Even kmalloc page_alloc t dev s))

  mkdir_in-Balances :
      (d len : ℕ) (name : List ℕ) (s : Ramfs) (o : Option ℕ)
      → IfSome (Balances s) (mkdir_in kmalloc page_alloc d name len s o)
  unfolding mkdir_in
  mkdir_in-Balances d len name s none = λ u. refl
  mkdir_in-Balances d len name s (some i) =
      mkdir_at-Balances d i len name s (alloc_inode kmalloc page_alloc dir_type 0 s)
        (alloc_inode-Even kmalloc page_alloc dir_type 0 s)

  pub ramfs_change-Balances :
      (o : Op) (d len : ℕ) (name : List ℕ) (s : Ramfs)
      → IfSome (Balances s) (ramfs_change o d name len s)
  unfolding ramfs_mknod ramfs_mkdir ramfs_rmdir ramfs_unlink ramfs_link
  ramfs_change-Balances (mknod mode dev) d len name s =
      then_any (Balances s) (room d name len s) _ (mknod_in-Balances d len mode dev name s)
  ramfs_change-Balances mkdir d len name s =
      then_any (Balances s) (room d name len s) _ (mkdir_in-Balances d len name s)
  ramfs_change-Balances rmdir d len name s =
      then_any (Balances s)
        (kassert (not (name_match dot name len) && not (name_match dot_dot name len))) _
        (λ x.
          IfSome-bind (Finds s) (Balances s) (ramfs_lookup d name len s) _
            (lookup-Finds d len name s) (rmdir_found-Balances d len name s))
  ramfs_change-Balances unlink d len name s =
      IfSome-bind (Finds s) (Balances s) (ramfs_lookup d name len s) _ (lookup-Finds d len name s)
        (unlink_found-Balances d len name s)
  ramfs_change-Balances (link old) d len name s =
      then_any (Balances s) (room d name len s) _ (link_in-Balances old d len name s)

  -- The vnodes with the counts of the world, and back.
  abbrev counted : World Ramfs → Ramfs
  counted w = record w.disk { vnodes = λ i. record (w.disk.vnodes i) { refcount = w.refs i } }

  abbrev back : Ramfs → World Ramfs
  back s = record { refs = λ i. (s.vnodes i).refcount; disk = s }

  -- A call that stops at an assertion gives `a`, and nothing changed.
  abbrev outcome : {A : Type 0} → A → World Ramfs → Option (A × Ramfs) → A × World Ramfs
  outcome a w none = (a, w)
  outcome a w (some (x, s)) = (x, back s)

  pub outcome-Counted :
      (w : World Ramfs) (o : Option (Found × Ramfs))
      → IfSome (Finds (counted w)) o
      → Counted w (outcome (missing 5) w o)
  outcome-Counted w none h = λ u. refl
  outcome-Counted w (some (there v, s)) h = h
  outcome-Counted w (some (missing e, s)) h = h

  pub outcome-Same :
      (w : World Ramfs) (o : Option (Ret × Ramfs))
      → IfSome (Balances (counted w)) o
      → Same w (outcome (err 5) w o).1
  outcome-Same w none h = λ u. refl
  outcome-Same w (some (r, s)) h = h

  abbrev is_directory : Option Inode → Bool
  is_directory none = false
  is_directory (some n) = mode_of n.kind == dir_mode

  -- 0 where there is an inode to inspect.
  abbrev stat_result : {A : Type 0} → Option A → Ret
  stat_result none = err 5
  stat_result (some x) = ok 0

  -- The file system in memory, with the modes that its vnodes have in `start`, before the call.
  abbrev pub ramfs : Ramfs → Fs Ramfs
  ramfs start = record {
    is_dir = λ v. is_directory (start.inodes v);
    can_lookup = λ v. is_directory (start.inodes v);
    supports = λ v. is_directory (start.inodes v);
    find = λ d name len w. outcome (missing 5) w (ramfs_lookup d name len (counted w));
    change = λ o d name len w. outcome (err 5) w (ramfs_change o d name len (counted w));
    stat = λ v w. stat_result (ramfs_stat v (counted w));
    find_counts = λ d name len w.
        outcome-Counted w (ramfs_lookup d name len (counted w))
          (lookup-Finds d len name (counted w));
    change_counts = λ o d name len w.
        outcome-Same w (ramfs_change o d name len (counted w))
          (ramfs_change-Balances o d len name (counted w));
    dir_supports = λ d h. h;
  }
