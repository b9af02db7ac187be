-- ===== src/Ramfs/References.antt =====
-- kernel/fs/ramfs/ramfs.c, the operations on directories: what they do to the references of the
-- vnodes, in any state.
use abmp.Common.{
  ℕ, ◌+◌, ◌≡◌, refl, ◌∙◌, inl, inr, Bool, not, Option, none, some, List, ◌==◌, if◌then◌else◌, ◌>>=◌,
  kassert, arith, ltb, Bool-cases,
}
use abmp.Files.{Ret, ok, err}
use abmp.Paths.{Found, there, missing}
use abmp.Ramfs.{
  RamfsType, Inode, Ramfs, set_inode, set_vnode, read_inode, read_vnode, vget, delete_vnode, vput,
  dir_mode, alloc_inode, find_entry, entries_at, entries_of,
}
use abmp.Ramfs.Calls.{
  found_in, ramfs_lookup, set_entry, mknod_at, dots, mkdir_at, link_more, link_less, link_in,
  remove_entry, remove_from, unlink_found, has_files, rmdir_found,
}
use abmp.Ramfs.Keeps.{alloc_inode-cases}

-- What holds of a result, if there is one.
abbrev pub IfSome : {A : Type 0} → (A → Type 0) → Option A → Type 0
IfSome P none = Unit {0}
IfSome P (some x) = P x

IfSome-any : {A : Type 0} (o : Option A) → IfSome (λ x. Unit {0}) o
IfSome-any none = tt
IfSome-any (some x) = tt

pub IfSome-bind :
    {A B : Type 0} (P : A → Type 0) (Q : B → Type 0) (o : Option A) (k : A → Option B)
    → IfSome P o
    → ((x : A) → P x → IfSome Q (k x))
    → IfSome Q (o >>= k)
IfSome-bind P Q none k h f = tt
IfSome-bind P Q (some x) k h f = f x h

-- After any step.
pub then_any :
    {A B : Type 0} (Q : B → Type 0) (o : Option A) (k : A → Option B)
    → ((x : A) → IfSome Q (k x))
    → IfSome Q (o >>= k)
then_any Q o k f = IfSome-bind (λ x. Unit {0}) Q o k (IfSome-any o) (λ x h. f x)

-- The references of every vnode are the same, or so but for one more of `v`.
abbrev pub Even : Ramfs → Ramfs → Type 0
Even s s' = (u : ℕ) → (s'.vnodes u).refcount ≡ (s.vnodes u).refcount

abbrev pub More : ℕ → Ramfs → Ramfs → Type 0
More v s s' =
    (u : ℕ)
    → (s'.vnodes u).refcount ≡ (if u == v then (s.vnodes u).refcount + 1 else (s.vnodes u).refcount)

read_inode-More :
    (v : ℕ) (o : Option Inode) (s : Ramfs)
    → (s.vnodes v).refcount ≡ 0
    → IfSome (More v s) (read_inode v o s)
unfolding read_inode set_inode set_vnode
read_inode-More v none s h = tt
read_inode-More v (some n) s h =
    then_any (More v s) (kassert (n.ino == v)) _ (λ x u. ground (arith, h))

vget-More : (v : ℕ) (s : Ramfs) → IfSome (More v s) (vget v s)
unfolding vget read_vnode set_vnode
vget-More v s = elim (Bool-cases (ltb 0 (s.vnodes v).refcount)) [
  | inl p ↦ rw p (λ u. ground arith)
  | inr p ↦ rw p (read_inode-More v (s.inodes v) s (ground arith))
]

vput-More : (v : ℕ) (s : Ramfs) → IfSome (λ s'. More v s' s) (vput v s)
unfolding vput delete_vnode set_inode set_vnode
vput-More v s = elim (Bool-cases (ltb 0 (s.vnodes v).refcount)) [
  | inr p ↦ rw p tt
  | inl p ↦ elim (Bool-cases ((s.vnodes v).refcount == 1)) [
    | inr q ↦ rw (p, q) (λ u. ground arith)
    | inl q ↦
        rw (p, q)
          (then_any (λ s'. More v s' s) (s.inodes v) _
            (λ n. elim (Bool-cases (n.linkcount == 1)) [
              | inl e ↦ rw e (λ u. ground arith)
              | inr e ↦ rw e (λ u. ground arith)
            ]))
  ]
]

set_entry-Even :
    (d i ino len : ℕ) (name : List ℕ) (s : Ramfs) → IfSome (Even s) (set_entry d i ino name len s)
unfolding set_entry set_inode
set_entry-Even d i ino len name s =
    then_any (Even s) (s.inodes d) _ (λ n. then_any (Even s) (entries_of n) _ (λ es u. refl))

remove_entry-Even :
    (d len : ℕ) (name : List ℕ) (s : Ramfs) → IfSome (Even s) (remove_entry d name len s)
unfolding remove_entry set_inode
remove_entry-Even d len name s =
    then_any (Even s) (s.inodes d) _ (λ n. then_any (Even s) (entries_of n) _ (λ es u. refl))

dots-Even : (d i : ℕ) (s : Ramfs) → IfSome (Even s) (dots d i s)
unfolding dots set_inode
dots-Even d i s =
    then_any (Even s) (s.inodes i) _ (λ n. then_any (Even s) (entries_of n) _ (λ es u. refl))

link_more-Even : (i : ℕ) (s : Ramfs) → IfSome (Even s) (link_more i s)
unfolding link_more set_inode
link_more-Even i s = then_any (Even s) (s.inodes i) _ (λ n u. refl)

link_less-Even : (i : ℕ) (s : Ramfs) → IfSome (Even s) (link_less i s)
unfolding link_less set_inode
link_less-Even i s = then_any (Even s) (s.inodes i) _ (λ n u. refl)

pub alloc_inode-Even :
    (k p : Bool) (t : RamfsType) (dev : ℕ) (s : Ramfs) → Even s (alloc_inode k p t dev s).1
unfolding set_inode
alloc_inode-Even k p t dev s = elim (alloc_inode-cases k p t dev s) [
  | inl (e, _) ↦ rw e (λ u. refl)
  | inr (i, (_, e)) ↦ rw e (λ u. refl)
]

-- Of a call that returns a vnode or an error, and of one that returns 0 or an error.
abbrev pub Finds : Ramfs → Found × Ramfs → Type 0
Finds s (there v, s') = More v s s'
Finds s (missing e, s') = Even s s'

abbrev pub Balances : Ramfs → Ret × Ramfs → Type 0
Balances s r = Even s r.1

found_in-Finds : (o : Option ℕ) (s : Ramfs) → IfSome (Finds s) (found_in o s)
unfolding found_in
found_in-Finds none s = λ u. refl
found_in-Finds (some i) s =
    IfSome-bind (More i s) (Finds s) (vget i s) _ (vget-More i s) (λ s' h. h)

pub lookup-Finds :
    (d len : ℕ) (name : List ℕ) (s : Ramfs) → IfSome (Finds s) (ramfs_lookup d name len s)
unfolding ramfs_lookup
lookup-Finds d len name s =
    then_any (Finds s) (entries_at d s) _ (λ es. found_in-Finds (find_entry name len es) s)

pub mknod_at-Balances :
    (d i len : ℕ) (name : List ℕ) (s : Ramfs) (r : Ret × Ramfs)
    → Even s r.1
    → IfSome (Balances s) (mknod_at d i name len r)
unfolding mknod_at
mknod_at-Balances d i len name s (err e, s₁) h = h
mknod_at-Balances d i len name s (ok ino, s₁) h =
    IfSome-bind (Even s₁) (Balances s) (set_entry d i ino name len s₁) _
      (set_entry-Even d i ino len name s₁) (λ s₂ g u. g u ∙ h u)

pub mkdir_at-Balances :
    (d i len : ℕ) (name : List ℕ) (s : Ramfs) (r : Ret × Ramfs)
    → Even s r.1
    → IfSome (Balances s) (mkdir_at d i name len r)
unfolding mkdir_at
mkdir_at-Balances d i len name s (err e, s₁) h = h
mkdir_at-Balances d i len name s (ok ino, s₁) h =
    IfSome-bind (Even s₁) (Balances s) (set_entry d i ino name len s₁) _
      (set_entry-Even d i ino len name s₁)
      (λ s₂ g.
        IfSome-bind (Even s₂) (Balances s) (dots d ino s₂) _ (dots-Even d ino s₂)
          (λ s₃ k u. k u ∙ g u ∙ h u))

pub link_in-Balances :
    (old d len : ℕ) (name : List ℕ) (s : Ramfs) (o : Option ℕ)
    → IfSome (Balances s) (link_in old d name len s o)
unfolding link_in
link_in-Balances old d len name s none = λ u. refl
link_in-Balances old d len name s (some i) =
    IfSome-bind (Even s) (Balances s) (set_entry d i old name len s) _
      (set_entry-Even d i old len name s)
      (λ s₁ g.
        IfSome-bind (Even s₁) (Balances s) (link_more old s₁) _ (link_more-Even old s₁)
          (λ s₂ k u. k u ∙ g u))

-- The end of a removal, which puts down the reference that the search took.
remove_from-Balances :
    (d v len : ℕ) (name : List ℕ) (s s₁ : Ramfs)
    → More v s s₁
    → IfSome (Balances s) (remove_from d name len v s₁)
unfolding remove_from
remove_from-Balances d v len name s s₁ h =
    IfSome-bind (Even s₁) (Balances s) (remove_entry d name len s₁) _
      (remove_entry-Even d len name s₁)
      (λ s₂ g. IfSome-bind (Even s₂) (Balances s) (link_less v s₂) _ (link_less-Even v s₂) (λ s₃ k.
        IfSome-bind (λ s'. More v s' s₃) (Balances s) (vput v s₃) _ (vput-More v s₃)
          (λ s₄ m u. ground (arith, h u, g u, k u, m u))))

put_down :
    (v e : ℕ) (s s₁ : Ramfs)
    → More v s s₁
    → IfSome (Balances s) (vput v s₁ >>= λ s'. some (err e, s'))
put_down v e s s₁ h =
    IfSome-bind (λ s'. More v s' s₁) (Balances s) (vput v s₁) _ (vput-More v s₁)
      (λ s₂ m u. ground (arith, h u, m u))

pub unlink_found-Balances :
    (d len : ℕ) (name : List ℕ) (s : Ramfs) (r : Found × Ramfs)
    → Finds s r
    → IfSome (Balances s) (unlink_found d name len r)
unfolding unlink_found
unlink_found-Balances d len name s (missing e, s₁) h = tt
unlink_found-Balances d len name s (there v, s₁) h =
    then_any (Balances s) (kassert (not ((s₁.vnodes v).vn_mode == dir_mode))) _
      (λ x. remove_from-Balances d v len name s s₁ h)

pub rmdir_found-Balances :
    (d len : ℕ) (name : List ℕ) (s : Ramfs) (r : Found × Ramfs)
    → Finds s r
    → IfSome (Balances s) (rmdir_found d name len r)
unfolding rmdir_found
rmdir_found-Balances d len name s (missing e, s₁) h = h
rmdir_found-Balances d len name s (there v, s₁) h =
    elim (Bool-cases (not ((s₁.vnodes v).vn_mode == dir_mode))) [
      | inl p ↦ rw p (put_down v 20 s s₁ h)
      | inr p ↦ rw p (
          then_any (Balances s) (entries_at v s₁) _ (λ es. elim (Bool-cases (has_files es)) [
            | inl q ↦ rw q (put_down v 39 s s₁ h)
            | inr q ↦ rw q (remove_from-Balances d v len name s s₁ h)
          ]))
    ]
