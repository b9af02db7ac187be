-- ===== src/Ramfs/Places.antt =====
-- kernel/fs/ramfs/ramfs.c: what the operations that make an entry start from and what they promise.
use abmp.Common.{
  ℕ, ◌≤◌, ◌<◌, ◌≡◌, ◌≢◌, refl, sym, ap, ◌∙◌, true, false, none, some, List, ◌==◌, length, take,
  arith, [], ◌∷◌, All, Bool, suc, ◌⊎◌, inl, inr, Bool-cases, Option-cases,
}
use abmp.Files.{Ret, ok, err}
use abmp.Paths.{Found, there, missing}
use abmp.Ramfs.{
  RamfsType, data_type, Dirent, Inode, Ramfs, set_inode, free_entry, stored, entries_at, is_empty,
}
use abmp.Ramfs.Calls.{dot, dot_dot, room}
use abmp.Ramfs.Names.{find_name, find_entry-name}
use abmp.Ramfs.Keeps.{IsDir, Maps, set_inode-Keeps_other, NoInode}

-- A name that an entry has room for.
pub record Named (name : List ℕ) (len : ℕ) : Type 0 where
  pub some_length : 0 < len
  pub short : len ≤ 27
  pub given : len ≤ length name

pub stored-take : (name : List ℕ) (len : ℕ) → Named name len → stored name len ≡ take len name
unfolding stored
stored-take name len h = ap (λ k. take k name) (ground (arith, h.short))

-- Every entry of a directory has a name.
abbrev pub Full : List Dirent → Type 0
Full es = All (λ e. e.rd_name ≢ []) es

pub free_entry-Full : (es : List Dirent) → free_entry es ≡ none → Full es
free_entry-Full [] h = tt
free_entry-Full (e ∷ es) h = elim (Bool-cases (is_empty e.rd_name)) [
  | inl p ↦ let q : free_entry (e ∷ es) ≡ some 0 = ground (arith, p) in cc
  | inr p ↦ elim (Option-cases (free_entry es)) [
    | inl z ↦ ((λ w. let q : is_empty e.rd_name ≡ true = rw w refl in cc), free_entry-Full es z)
    | inr (i, z) ↦ let q : free_entry (e ∷ es) ≡ some (suc i) = ground (arith, p, z) in cc
  ]
]

-- Why a call fails with ENOSPC: the directory is full, no inode is left, or no memory.
module _ (kmalloc page_alloc : Bool) where
  abbrev pub NoSpace : RamfsType → List Dirent → Ramfs → Type 0
  NoSpace t es s = Full es ⊎ NoInode kmalloc page_alloc t s

  -- ENOSPC and nothing changed, or the entry.
  abbrev pub Added : ℕ → List Dirent → List ℕ → Ramfs → Found × Ramfs → Type 0
  Added d es y s (missing e, s') = ((e ≡ 28) × (s' ≡ s)) × NoSpace data_type es s
  Added d es y s (there i, s') = (s.inodes i ≡ none) × Maps d es y (some i) s'

  -- The same where the call returns no vnode: the entry has the number of some new inode.
  abbrev pub Made : RamfsType → ℕ → List Dirent → List ℕ → Ramfs → Ret × Ramfs → Type 0
  Made t d es y s (err e, s') = ((e ≡ 28) × (s' ≡ s)) × NoSpace t es s
  Made t d es y s (ok r, s') = (r ≡ 0) × ((i : ℕ) × ((s.inodes i ≡ none) × Maps d es y (some i) s'))

pub room_lem :
    (d len : ℕ) (name : List ℕ) (n : Inode) (es : List Dirent) (s : Ramfs)
    → IsDir d n es s
    → len ≤ length name
    → find_name (take len name) es ≡ none
    → room d name len s ≡ some (free_entry es)
unfolding room entries_at
room_lem d len name n es s k h g = rw (k.inode, k.memory, find_entry-name name len es h, g) refl

pub record HasDots (d i : ℕ) (s : Ramfs) : Type 0 where
  pub dir : Inode
  pub now : List Dirent
  pub is_dir : IsDir i dir now s
  pub self : find_name dot now ≡ some i
  pub parent : find_name dot_dot now ≡ some d

-- The state with a new inode.
module _ (d : ℕ) (n : Inode) (es : List Dirent) (s : Ramfs) (k : IsDir d n es s) where
  pub differs : (i : ℕ) → s.inodes i ≡ none → d ≢ i
  differs i h p =
      let q : s.inodes d ≡ none = ap s.inodes p ∙ h in let z : some n ≡ none = sym k.inode ∙ q in cc

  pub with_made :
      (i : ℕ) (m : Inode)
      → s.inodes i ≡ none
      → (n' : Inode) × IsDir d n' es (set_inode i (some m) s)
  with_made i m h = set_inode-Keeps_other d i (some m) s (differs i h) n es k

pub set_inode-here : (i : ℕ) (m : Inode) (s : Ramfs) → (set_inode i (some m) s).inodes i ≡ some m
unfolding set_inode
set_inode-here i m s = ground arith

pub set_inode_other :
    (d i : ℕ) (n m : Inode) (s : Ramfs)
    → d ≢ i
    → (set_inode d (some n) (set_inode i (some m) s)).inodes i ≡ some m
unfolding set_inode
set_inode_other d i n m s a =
    let p : (i == d) ≡ false = ground arith in
    let q : (i == i) ≡ true = ground arith in rw (p, q) refl
