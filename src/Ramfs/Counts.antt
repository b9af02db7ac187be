-- ===== src/Ramfs/Counts.antt =====
-- kernel/fs/ramfs/ramfs.c: the counts of an inode and its vnode as references come and go.
use abmp.Common.{
  ℕ, ◌+◌, ◌-◌, ◌<◌, ◌≡◌, ◌≢◌, refl, inl, inr, true, false, ltb, Option, none, some, ◌==◌,
  if◌then◌else◌, arith, Bool-cases,
}
use abmp.Ramfs.{
  Inode, Vnode, Ramfs, set_inode, set_vnode, read_vnode, vget, delete_vnode, vput, mode_of,
}
use abmp.Ramfs.Keeps.{Keeps, Keeps-trans, set_inode-Keeps, set_inode-Keeps_other, set_vnode-Keeps}

-- An inode in its place, with a link, and its vnode, where that is in use, of its type.
pub record Bound (v : ℕ) (m : Inode) (s : Ramfs) : Type 0 where
  pub inode : s.inodes v ≡ some m
  pub number : m.ino ≡ v
  pub linked : 0 < m.linkcount
  pub mode : 0 < (s.vnodes v).refcount → (s.vnodes v).vn_mode ≡ mode_of m.kind

-- A reference was taken: where there was none, the inode has another link for its vnode.
pub record Got (v : ℕ) (m : Inode) (s s' : Ramfs) : Type 0 where
  pub inode :
      s'.inodes v
      ≡ some (record m {
        linkcount = if (s.vnodes v).refcount == 0 then m.linkcount + 1 else m.linkcount;
      })
  pub counted : (s'.vnodes v).refcount ≡ (s.vnodes v).refcount + 1
  pub mode : (s'.vnodes v).vn_mode ≡ mode_of m.kind

pub vget-Got :
    (d v : ℕ) (m : Inode) (s : Ramfs)
    → Bound v m s
    → (s' : Ramfs) × ((vget v s ≡ some s') × (Keeps d s s' × Got v m s s'))
unfolding vget read_vnode set_inode set_vnode
vget-Got d v m s b = elim (Bool-cases (ltb 0 (s.vnodes v).refcount)) [
  | inl p ↦
      let u : Vnode = record (s.vnodes v) { refcount = (s.vnodes v).refcount + 1 } in
      let q : ((s.vnodes v).refcount == 0) ≡ false = ground arith in
      (
        set_vnode v u s,
        (
          rw p refl,
          (
            set_vnode-Keeps d v u s,
            record {
              inode = rw q b.inode;
              counted = ground arith;
              mode = ground (arith, b.mode (ground arith));
            },
          ),
        ),
      )
  | inr p ↦
      let q : (m.ino == v) ≡ true = ground (arith, b.number) in
      let z : ((s.vnodes v).refcount == 0) ≡ true = ground arith in
      let s₁ = set_inode v (some (record m { linkcount = m.linkcount + 1 })) s in
      let u : Vnode = record { refcount = 1; vn_len = m.size; vn_mode = mode_of m.kind } in
      (
        set_vnode v u s₁,
        (
          rw (p, b.inode, q) refl,
          (
            Keeps-trans d s s₁ (set_vnode v u s₁)
                (set_inode-Keeps d v (m.linkcount + 1) m s b.inode) (set_vnode-Keeps d v u s₁),
            record { inode = rw z (ground arith); counted = ground arith; mode = ground arith },
          ),
        ),
      )
]

-- What is left of an inode when its vnode is put down for the last time.
abbrev pub deleted : Inode → Option Inode
deleted m = if m.linkcount == 1 then none else some (record m { linkcount = m.linkcount - 1 })

pub vput_lem :
    (d v r : ℕ) (m : Inode) (s : Ramfs)
    → d ≢ v
    → s.inodes v ≡ some m
    → (s.vnodes v).refcount ≡ r + 1
    → (s' : Ramfs) × ((vput v s ≡ some s')
        × (Keeps d s s'
            × ((s'.inodes v ≡ (if r == 0 then deleted m else some m))
                × ((s'.vnodes v).refcount ≡ r))))
unfolding vput delete_vnode set_inode set_vnode
vput_lem d v r m s n h c =
    let p : ltb 0 (s.vnodes v).refcount ≡ true = ground (arith, c) in
    let u : Vnode = record (s.vnodes v) { refcount = (s.vnodes v).refcount - 1 } in
    let s₁ = set_vnode v u s in
    let k = set_vnode-Keeps d v u s in
    let w : (s₁.vnodes v).refcount ≡ r = ground (arith, c) in
    elim (Bool-cases (r == 0)) [
      | inr z ↦
          let q : ((s.vnodes v).refcount == 1) ≡ false = ground (arith, c) in
          (s₁, (rw (p, q) refl, (k, (rw z h, w))))
      | inl z ↦
          let q : ((s.vnodes v).refcount == 1) ≡ true = ground (arith, c) in
          let s₂ = set_inode v (deleted m) s₁ in
          (
            s₂,
            (
              elim (Bool-cases (m.linkcount == 1)) [
                | inl a ↦ rw (p, q, h, a) refl
                | inr a ↦ rw (p, q, h, a) refl
              ],
              (
                Keeps-trans d s s₁ s₂ k (set_inode-Keeps_other d v (deleted m) s₁ n),
                (rw z (ground arith), w),
              ),
            ),
          )
    ]
