-- ===== src/Ramfs/Calls.antt =====
-- kernel/fs/ramfs/ramfs.c: the operations on vnodes. `dir`, `vn` and `file` are numbers of vnodes in
-- use, offsets and lengths are below 2^31.
use abmp.Common.{
  ℕ, ◌+◌, ◌-◌, Bool, true, false, not, ◌&&◌, ◌||◌, Option, none, some, List, [], ◌∷◌, ◌==◌,
  if◌then◌else◌, ◌>>=◌, ◌>>◌, kassert, set, bit_and,
}
use abmp.Files.{Ret, ok, err}
use abmp.Paths.{Found, there, missing}
use abmp.Ramfs.{
  RamfsType, data_type, dir_type, chr_type, blk_type, Dirent, entries, Ramfs, set_inode, dir_mode,
  vget, vput, alloc_inode, streq, name_match, find_entry, is_empty, free_entry, stored, clear_entry,
  entries_of, entries_at,
}

abbrev pub dot : List ℕ
dot = 46 ∷ []

abbrev pub dot_dot : List ℕ
dot_dot = 46 ∷ 46 ∷ []

unfoldable pub found_in : Option ℕ → Ramfs → Option (Found × Ramfs)
found_in none s = some (missing 2, s)
found_in (some i) s = vget i s >>= λ s'. some (there i, s')

unfoldable pub ramfs_lookup : ℕ → List ℕ → ℕ → Ramfs → Option (Found × Ramfs)
unfolding found_in entries_at
ramfs_lookup d name len s = entries_at d s >>= λ es. found_in (find_entry name len es) s

abbrev pub is_none : Option ℕ → Bool
is_none none = true
is_none (some i) = false

-- The entry at the index `i` of the directory `d`, and the directory's size.
unfoldable pub set_entry : ℕ → ℕ → ℕ → List ℕ → ℕ → Ramfs → Option Ramfs
unfolding set_inode stored
set_entry d i ino name len s = do
  n ← s.inodes d
  es ← entries_of n
  let e : Dirent = record { rd_ino = ino; rd_name = stored name len }
  some (set_inode d (some (record n { mem = entries (set es i e); size = n.size + 32 })) s)

-- What each of the calls that make an entry begins with; `none` is -ENOSPC.
unfoldable pub room : ℕ → List ℕ → ℕ → Ramfs → Option (Option ℕ)
unfolding entries_at
room d name len s = do
  es ← entries_at d s
  kassert (is_none (find_entry name len es))
  some (free_entry es)

-- The type of a special file; a mode of another type is a panic.
abbrev pub special_type : ℕ → Option RamfsType
special_type mode =
    if bit_and mode 65280 == 256
    then some chr_type
    else if bit_and mode 65280 == 1024
    then some blk_type
    else none

unfoldable pub create_at : ℕ → ℕ → List ℕ → ℕ → Ret × Ramfs → Option (Found × Ramfs)
unfolding set_entry
create_at d i name len (err e, s) = some (missing e, s)
create_at d i name len (ok ino, s) = do
  s₁ ← vget ino s
  s₂ ← set_entry d i ino name len s₁
  some (there ino, s₂)

unfoldable pub mknod_at : ℕ → ℕ → List ℕ → ℕ → Ret × Ramfs → Option (Ret × Ramfs)
unfolding set_entry
mknod_at d i name len (err e, s) = some (err e, s)
mknod_at d i name len (ok ino, s) = set_entry d i ino name len s >>= λ s'. some (ok 0, s')

-- The entries of a new directory.
unfoldable pub dots : ℕ → ℕ → Ramfs → Option Ramfs
unfolding set_inode
dots d ino s = do
  n ← s.inodes ino
  es ← entries_of n
  let e : Dirent = record { rd_ino = ino; rd_name = dot }
  let up : Dirent = record { rd_ino = d; rd_name = dot_dot }
  some (set_inode ino (some (record n { mem = entries (set (set es 0 e) 1 up); size = 64 })) s)

unfoldable pub mkdir_at : ℕ → ℕ → List ℕ → ℕ → Ret × Ramfs → Option (Ret × Ramfs)
unfolding set_entry dots
mkdir_at d i name len (err e, s) = some (err e, s)
mkdir_at d i name len (ok ino, s) = do
  s₁ ← set_entry d i ino name len s
  s₂ ← dots d ino s₁
  some (ok 0, s₂)

module _ (kmalloc page_alloc : Bool) where
  unfoldable pub create_in : ℕ → List ℕ → ℕ → Ramfs → Option ℕ → Option (Found × Ramfs)
  unfolding create_at alloc_inode
  create_in d name len s none = some (missing 28, s)
  create_in d name len s (some i) =
      create_at d i name len (alloc_inode kmalloc page_alloc data_type 0 s)

  unfoldable pub ramfs_create : ℕ → List ℕ → ℕ → Ramfs → Option (Found × Ramfs)
  unfolding room create_in
  ramfs_create d name len s = room d name len s >>= create_in d name len s

  unfoldable pub mknod_in : ℕ → List ℕ → ℕ → ℕ → ℕ → Ramfs → Option ℕ → Option (Ret × Ramfs)
  unfolding mknod_at alloc_inode
  mknod_in d name len mode dev s none = some (err 28, s)
  mknod_in d name len mode dev s (some i) =
      special_type mode >>= λ t. mknod_at d i name len (alloc_inode kmalloc page_alloc t dev s)

  unfoldable pub ramfs_mknod : ℕ → List ℕ → ℕ → ℕ → ℕ → Ramfs → Option (Ret × Ramfs)
  unfolding room mknod_in
  ramfs_mknod d name len mode dev s = room d name len s >>= mknod_in d name len mode dev s

  unfoldable pub mkdir_in : ℕ → List ℕ → ℕ → Ramfs → Option ℕ → Option (Ret × Ramfs)
  unfolding mkdir_at alloc_inode
  mkdir_in d name len s none = some (err 28, s)
  mkdir_in d name len s (some i) =
      mkdir_at d i name len (alloc_inode kmalloc page_alloc dir_type 0 s)

  unfoldable pub ramfs_mkdir : ℕ → List ℕ → ℕ → Ramfs → Option (Ret × Ramfs)
  unfolding room mkdir_in
  ramfs_mkdir d name len s = room d name len s >>= mkdir_in d name len s

-- `rf_linkcount` up or down by one.
unfoldable pub link_more : ℕ → Ramfs → Option Ramfs
unfolding set_inode
link_more i s =
    s.inodes i >>= λ n. some (set_inode i (some (record n { linkcount = n.linkcount + 1 })) s)

unfoldable pub link_less : ℕ → Ramfs → Option Ramfs
unfolding set_inode
link_less i s =
    s.inodes i >>= λ n. some (set_inode i (some (record n { linkcount = n.linkcount - 1 })) s)

unfoldable pub link_in : ℕ → ℕ → List ℕ → ℕ → Ramfs → Option ℕ → Option (Ret × Ramfs)
unfolding set_entry link_more
link_in old d name len s none = some (err 28, s)
link_in old d name len s (some i) = do
  s₁ ← set_entry d i old name len s
  s₂ ← link_more old s₁
  some (ok 0, s₂)

unfoldable pub ramfs_link : ℕ → ℕ → List ℕ → ℕ → Ramfs → Option (Ret × Ramfs)
unfolding room link_in
ramfs_link old d name len s = room d name len s >>= link_in old d name len s

-- The end of `ramfs_unlink` and of `ramfs_rmdir`.
unfoldable pub remove_entry : ℕ → List ℕ → ℕ → Ramfs → Option Ramfs
unfolding set_inode
remove_entry d name len s = do
  n ← s.inodes d
  es ← entries_of n
  some (
      set_inode d (some (record n { mem = entries (clear_entry name len es); size = n.size - 32 }))
        s)

unfoldable pub remove_from : ℕ → List ℕ → ℕ → ℕ → Ramfs → Option (Ret × Ramfs)
unfolding remove_entry link_less
remove_from d name len v s = do
  s₁ ← remove_entry d name len s
  s₂ ← link_less v s₁
  s₃ ← vput v s₂
  some (ok 0, s₃)

unfoldable pub unlink_found : ℕ → List ℕ → ℕ → Found × Ramfs → Option (Ret × Ramfs)
unfolding remove_from
unlink_found d name len (missing e, s) = none
unlink_found d name len (there v, s) =
    kassert (not ((s.vnodes v).vn_mode == dir_mode)) >> remove_from d name len v s

unfoldable pub ramfs_unlink : ℕ → List ℕ → ℕ → Ramfs → Option (Ret × Ramfs)
unfolding ramfs_lookup unlink_found
ramfs_unlink d name len s = ramfs_lookup d name len s >>= unlink_found d name len

-- The loop that looks for an entry other than "." and "..".
abbrev pub has_files : List Dirent → Bool
has_files [] = false
has_files (e ∷ es) =
    let rest = has_files es in
    if streq e.rd_name dot || streq e.rd_name dot_dot
    then rest
    else not (is_empty e.rd_name) || rest

unfoldable pub rmdir_found : ℕ → List ℕ → ℕ → Found × Ramfs → Option (Ret × Ramfs)
unfolding remove_from entries_at
rmdir_found d name len (missing e, s) = some (err e, s)
rmdir_found d name len (there v, s) =
    if not ((s.vnodes v).vn_mode == dir_mode)
    then (vput v s >>= λ s'. some (err 20, s'))
    else (entries_at v s >>= λ es.
        if has_files es then (vput v s >>= λ s'. some (err 39, s')) else remove_from d name len v s)

unfoldable pub ramfs_rmdir : ℕ → List ℕ → ℕ → Ramfs → Option (Ret × Ramfs)
unfolding ramfs_lookup rmdir_found
ramfs_rmdir d name len s = do
  kassert (not (name_match dot name len) && not (name_match dot_dot name len))
  r ← ramfs_lookup d name len s
  rmdir_found d name len r
