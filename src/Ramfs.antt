-- ===== src/Ramfs.antt =====
-- kernel/fs/ramfs/ramfs.c, with vget and vput of kernel/fs/vnode.c for its vnodes: what is kept and
-- the helpers. Inodes and vnodes go by number; a page is a list of bytes or of directory entries,
-- by the type of its inode, and a name is the string up to the NUL. No page of a vnode is resident.
-- Sizes and counts stay far below 2^31. `none` is a failed `KASSERT`, a panic or a bad pointer.
pub mod Calls
pub mod Data
pub mod RoundTrip
pub mod Names
pub mod Keeps
pub mod Places
pub mod Additions
pub mod Counts
pub mod Removals
pub mod References
pub mod AsFs
use abmp.Common.{
  ℕ, zero, suc, ◌+◌, ◌-◌, Bool, true, false, not, ◌&&◌, ltb, Option, none, some, List, [], ◌∷◌,
  ◌==◌, if◌then◌else◌, ◌>>=◌, ◌>>◌, kassert, length, set, take, replicate,
}
use abmp.Files.{Ret, ok, err}
use abmp.Paths.{Found, there, missing}

-- RAMFS_TYPE_DATA and so on
pub data RamfsType : Type 0 where
  data_type dir_type chr_type blk_type : RamfsType

pub record Dirent : Type 0 where
  pub rd_ino : ℕ
  pub rd_name : List ℕ

pub data Mem : Type 0 where
  page : List ℕ → Mem
  entries : List Dirent → Mem
  devid : ℕ → Mem

pub record Inode : Type 0 where
  pub size : ℕ
  pub ino : ℕ
  pub mem : Mem
  pub kind : RamfsType
  pub linkcount : ℕ

-- A vnode is in use where its count is positive; its `vn_i` is then the inode of its number.
pub record Vnode : Type 0 where
  pub refcount : ℕ
  pub vn_len : ℕ
  pub vn_mode : ℕ

pub record Ramfs : Type 0 where
  pub inodes : ℕ → Option Inode
  pub vnodes : ℕ → Vnode

unfoldable pub set_inode : ℕ → Option Inode → Ramfs → Ramfs
set_inode i o s = record s { inodes = λ j. if j == i then o else s.inodes j }

unfoldable pub set_vnode : ℕ → Vnode → Ramfs → Ramfs
set_vnode i v s = record s { vnodes = λ j. if j == i then v else s.vnodes j }

abbrev pub dir_mode : ℕ
dir_mode = 512

-- The switch of `ramfs_read_vnode`.
abbrev pub mode_of : RamfsType → ℕ
mode_of data_type = 2048
mode_of dir_type = dir_mode
mode_of chr_type = 256
mode_of blk_type = 1024

unfoldable read_inode : ℕ → Option Inode → Ramfs → Option Ramfs
unfolding set_inode set_vnode
read_inode i none s = none
read_inode i (some n) s = do
  kassert (n.ino == i)
  some (
      set_vnode i (record { refcount = 1; vn_len = n.size; vn_mode = mode_of n.kind })
        (set_inode i (some (record n { linkcount = n.linkcount + 1 })) s))

unfoldable pub read_vnode : ℕ → Ramfs → Option Ramfs
unfolding read_inode
read_vnode i s = read_inode i (s.inodes i) s

-- The vnode's memory is there, since the source tries again until it is.
unfoldable pub vget : ℕ → Ramfs → Option Ramfs
unfolding read_vnode set_vnode
vget i s =
    if ltb 0 (s.vnodes i).refcount
    then some (set_vnode i (record (s.vnodes i) { refcount = (s.vnodes i).refcount + 1 }) s)
    else read_vnode i s

unfoldable pub delete_vnode : ℕ → Ramfs → Option Ramfs
unfolding set_inode
delete_vnode i s = do
  n ← s.inodes i
  some (
      if n.linkcount == 1
      then set_inode i none s
      else set_inode i (some (record n { linkcount = n.linkcount - 1 })) s)

abbrev pub query_vnode : Inode → Bool
query_vnode n = ltb 1 n.linkcount

unfoldable pub vput : ℕ → Ramfs → Option Ramfs
unfolding delete_vnode set_vnode
vput i s = do
  kassert (ltb 0 (s.vnodes i).refcount)
  let s' = set_vnode i (record (s.vnodes i) { refcount = (s.vnodes i).refcount - 1 }) s
  if (s.vnodes i).refcount == 1 then delete_vnode i s' else some s'

-- The first free inode from `i` on, of the `n` that are left.
unfoldable pub free_inode : ℕ → ℕ → (ℕ → Option Inode) → Option ℕ
free_inode zero i inodes = none
free_inode (suc n) i inodes =
    let rest = free_inode n (i + 1) inodes in elim (inodes i) [ none ↦ some i | some x ↦ rest ]

abbrev pub no_entry : Dirent
no_entry = record { rd_ino = 0; rd_name = [] }

-- `rf_mem` of a new inode.
unfoldable pub fresh : RamfsType → ℕ → Mem
fresh data_type d = page (replicate 4096 0)
fresh dir_type d = entries (replicate 128 no_entry)
fresh chr_type d = devid d
fresh blk_type d = devid d

abbrev pub needs_page : RamfsType → Bool
needs_page data_type = true
needs_page dir_type = true
needs_page chr_type = false
needs_page blk_type = false

-- Whether `kmalloc` and `page_alloc` find memory in a call.
module _ (kmalloc page_alloc : Bool) where
  install : RamfsType → ℕ → Ramfs → Option ℕ → Ret × Ramfs
  unfolding fresh set_inode
  install t d s none = (err 28, s)
  install t d s (some i) =
      if not kmalloc then (err 28, s) else if needs_page t && not page_alloc then (err 28, s) else (
        ok i,
        set_inode i (some (record { size = 0; ino = i; mem = fresh t d; kind = t; linkcount = 1 }))
            s,
      )

  unfoldable pub alloc_inode : RamfsType → ℕ → Ramfs → Ret × Ramfs
  unfolding free_inode install
  alloc_inode t d s = install t d s (free_inode 64 0 s.inodes)

-- Equality of strings.
abbrev pub streq : List ℕ → List ℕ → Bool
streq [] [] = true
streq [] (y ∷ ys) = false
streq (x ∷ xs) [] = false
streq (x ∷ xs) (y ∷ ys) = let rest = streq xs ys in if x == y then rest else false

unfoldable pub name_match : List ℕ → List ℕ → ℕ → Bool
name_match fname name len = length fname == len && streq fname (take len name)

-- The inode number in the first entry that matches.
abbrev pub find_entry : List ℕ → ℕ → List Dirent → Option ℕ
find_entry name len [] = none
find_entry name len (e ∷ es) =
    let rest = find_entry name len es in
    if name_match e.rd_name name len then some e.rd_ino else rest

abbrev pub is_empty : List ℕ → Bool
is_empty [] = true
is_empty (c ∷ s) = false

-- The index of the first entry without a name.
abbrev pub free_entry : List Dirent → Option ℕ
free_entry [] = none
free_entry (e ∷ es) =
    let rest = free_entry es in if is_empty e.rd_name then some 0 else (rest >>= λ i. some (suc i))

-- `strncpy` of at most NAME_LEN - 1 bytes, and the NUL.
unfoldable pub stored : List ℕ → ℕ → List ℕ
stored name len = take (if ltb len 27 then len else 27) name

-- The first entry that matches loses its name.
abbrev pub clear_entry : List ℕ → ℕ → List Dirent → List Dirent
clear_entry name len [] = []
clear_entry name len (e ∷ es) =
    let rest = clear_entry name len es in
    if name_match e.rd_name name len then record e { rd_name = [] } ∷ es else e ∷ rest

abbrev pub entries_of : Inode → Option (List Dirent)
entries_of n = elim n.mem [ page b ↦ none | entries es ↦ some es | devid d ↦ none ]

unfoldable pub entries_at : ℕ → Ramfs → Option (List Dirent)
entries_at i s = s.inodes i >>= entries_of
