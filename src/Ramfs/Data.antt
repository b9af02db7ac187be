-- ===== src/Ramfs/Data.antt =====
-- kernel/fs/ramfs/ramfs.c: the contents of files and directories, and the mount. An offset is not
-- negative; an offset and a length are below 2^31.
use abmp.Common.{
  ℕ, zero, suc, ◌+◌, ◌-◌, ◌*◌, ◌/◌, ◌%◌, Bool, not, ◌||◌, ltb, Option, none, some, List, [], ◌∷◌,
  ◌++◌, ◌==◌, if◌then◌else◌, ◌>>=◌, ◌>>◌, kassert, length, take, drop,
}
use abmp.Files.{Ret, ok, err}
use abmp.Ramfs.{
  Dirent, Mem, page, entries, devid, Inode, Ramfs, dir_type, set_inode, set_vnode, dir_mode, vget,
  alloc_inode, is_empty, entries_at,
}
use abmp.Ramfs.Calls.{dots}

abbrev pub page_of : Inode → Option (List ℕ)
page_of n = elim n.mem [ page b ↦ some b | entries es ↦ none | devid d ↦ none ]

abbrev pub min : ℕ → ℕ → ℕ
min a b = if ltb a b then a else b

abbrev pub max : ℕ → ℕ → ℕ
max a b = if ltb a b then b else a

abbrev pub is_dir : ℕ → Ramfs → Bool
is_dir i s = (s.vnodes i).vn_mode == dir_mode

-- Past the end of the file there is nothing to read.
unfoldable pub ramfs_read : ℕ → ℕ → ℕ → Ramfs → Option (List ℕ)
ramfs_read file offset count s = do
  kassert (not (is_dir file s))
  n ← s.inodes file
  b ← page_of n
  some (take (min count (n.size - offset)) (drop offset b))

-- The bytes of `buf` over those of `b` from the offset on.
unfoldable pub overwrite : ℕ → List ℕ → List ℕ → List ℕ
overwrite offset buf b = take offset b ++ (buf ++ drop (offset + length buf) b)

-- The source compares `(off_t)count`, which is the count below 2^31.
abbrev pub writable : ℕ → ℕ → ℕ
writable offset count = min count (4096 - offset)

unfoldable pub ramfs_write : ℕ → ℕ → List ℕ → ℕ → Ramfs → Option (ℕ × Ramfs)
unfolding set_inode set_vnode overwrite
ramfs_write file offset buf count s = do
  kassert (not (is_dir file s))
  n ← s.inodes file
  b ← page_of n
  kassert (not (ltb 4096 offset))
  let ret : ℕ = writable offset count
  kassert ((s.vnodes file).vn_len == n.size)
  let len : ℕ = max n.size (offset + ret)
  let n' : Inode = record n { mem = page (overwrite offset (take ret buf) b); size = len }
  some (ret, set_vnode file (record (s.vnodes file) { vn_len = len }) (set_inode file (some n') s))

-- The first entry with a name and the number of those passed over.
unfoldable pub next_entry : List Dirent → Option (ℕ × Dirent)
next_entry [] = none
next_entry (e ∷ es) =
    let rest = next_entry es in
    if is_empty e.rd_name then (rest >>= λ r. some (suc r.0, r.1)) else some (0, e)

-- The result is what the offset goes up by, 0 at the end, and the entry that was copied.
unfoldable pub ramfs_readdir : ℕ → ℕ → Ramfs → Option (ℕ × Option Dirent)
unfolding entries_at next_entry
ramfs_readdir d offset s = do
  kassert (is_dir d s)
  kassert (offset % 32 == 0)
  es ← entries_at d s
  elim (next_entry (drop (offset / 32) es)) [
    | none ↦ some (0, none)
    | some (i, e) ↦ some (32 + i * 32, some (record e { rd_name = take 27 e.rd_name }))
  ]

pub record Stat : Type 0 where
  pub st_mode : ℕ
  pub st_ino : ℕ
  pub st_rdev : ℕ
  pub st_nlink : ℕ
  pub st_size : ℕ

-- The device of a special file.
abbrev pub rdev_of : ℕ → Mem → ℕ
rdev_of mode m =
    if mode == 256 || mode == 1024 then elim m [ page b ↦ 0 | entries es ↦ 0 | devid d ↦ d ] else 0

unfoldable pub ramfs_stat : ℕ → Ramfs → Option Stat
ramfs_stat file s = s.inodes file >>= λ n. some (record {
  st_mode = (s.vnodes file).vn_mode;
  st_ino = file;
  st_rdev = rdev_of (s.vnodes file).vn_mode n.mem;
  st_nlink = n.linkcount - 1;
  st_size = n.size;
})

-- Before the mount.
abbrev pub unmounted : Ramfs
unmounted = record {
  inodes = λ i. none;
  vnodes = λ i. record { refcount = 0; vn_len = 0; vn_mode = 0 };
}

unfoldable pub mount_root : Ret × Ramfs → Option (Ret × Ramfs)
unfolding dots
mount_root (err e, s) = some (err e, s)
mount_root (ok zero, s) = do s₁ ← dots 0 0 s; s₂ ← vget 0 s₁; some (ok 0, s₂)
mount_root (ok (suc i), s) = none

-- `kmalloc` also answers for the file system's own record.
module _ (kmalloc page_alloc : Bool) where
  unfoldable pub ramfs_mount : Option (Ret × Ramfs)
  unfolding mount_root alloc_inode
  ramfs_mount =
      if kmalloc
      then mount_root (alloc_inode kmalloc page_alloc dir_type 0 unmounted)
      else some (err 12, unmounted)
