-- ===== src/Ramfs/Additions.antt =====
-- kernel/fs/ramfs/ramfs.c: the operations that make an entry.
use abmp.Common.{
  ℕ, zero, suc, ◌+◌, ◌≡◌, refl, sym, inl, inr, Bool, false, none, some, List, [], ◌∷◌, ◌==◌, take,
  replicate, arith, Bool-cases, Option-cases,
}
use abmp.Files.{Ret, ok, err}
use abmp.Paths.{Found, there, missing}
use abmp.Ramfs.{
  RamfsType, data_type, dir_type, Dirent, entries, Inode, Ramfs, set_inode, fresh, no_entry,
  is_empty, free_entry, stored,
}
use abmp.Ramfs.Calls.{
  dot, dot_dot, special_type, create_at, create_in, ramfs_create, mknod_at, mknod_in, mkdir_in,
  ramfs_mknod, dots, mkdir_at, ramfs_mkdir, link_more, link_in, ramfs_link,
}
use abmp.Ramfs.Names.{find_name, Unique}
use abmp.Ramfs.Keeps.{
  IsDir, Maps, Keeps-Maps, set_inode-Keeps, set_inode-Keeps_other, vget-Keeps, set_entry-Maps, made,
  alloc_inode-cases,
}
use abmp.Ramfs.Places.{
  with_made, differs, Named, stored-take, Full, free_entry-Full, NoSpace, Added, Made, room_lem,
  HasDots, set_inode-here, set_inode_other,
}

create_at-Added :
    (d i j len : ℕ) (name : List ℕ) (n : Inode) (es : List Dirent) (s : Ramfs)
    → IsDir d n es s
    → free_entry es ≡ some j
    → find_name (stored name len) es ≡ none
    → s.inodes i ≡ none
    → (s' : Ramfs) × ((create_at d j name len (ok i, set_inode i (some (made data_type 0 i)) s)
          ≡ some (there i, s'))
        × Maps d es (stored name len) (some i) s')
unfolding create_at
create_at-Added d i j len name n es s k hf hn h =
    let m = made data_type 0 i in
    let s₁ = set_inode i (some m) s in
    let (n₁, k₁) = with_made d n es s k i m h in
    let (s₂, (p, q)) = vget-Keeps d i m s₁ (set_inode-here i m s) refl in
    let (n₂, k₂) = q n₁ es k₁ in
    let (m', (z, w)) = set_entry-Maps d j i len name n₂ es s₂ k₂ hf hn in
    (set_inode d (some m') s₂, (rw (p, z) refl, w))

-- A new directory has the entries "." and "..".
abbrev pub MadeDir : Bool → Bool → ℕ → List Dirent → List ℕ → Ramfs → Ret × Ramfs → Type 0
MadeDir k p d es y s (err e, s') = ((e ≡ 28) × (s' ≡ s)) × NoSpace k p dir_type es s
MadeDir k p d es y s (ok r, s') =
    (r ≡ 0) × ((i : ℕ) × ((s.inodes i ≡ none) × (Maps d es y (some i) s' × HasDots d i s')))

-- The entry has the number of the old vnode.
abbrev pub Linked : ℕ → ℕ → List Dirent → List ℕ → Ramfs → Ret × Ramfs → Type 0
Linked old d es y s (err e, s') = ((e ≡ 28) × (s' ≡ s)) × Full es
Linked old d es y s (ok r, s') = (r ≡ 0) × Maps d es y (some old) s'

pub replicate-Unique : (n : ℕ) → Unique (replicate n no_entry)
unfolding replicate
replicate-Unique zero = tt
replicate-Unique (suc n) = ((λ w. cc), replicate-Unique n)

pub find_name-replicate :
    (x : List ℕ) (n : ℕ) → is_empty x ≡ false → find_name x (replicate n no_entry) ≡ none
unfolding replicate
find_name-replicate x zero h = refl
find_name-replicate [] (suc n) h = cc
find_name-replicate (c ∷ x) (suc n) h = find_name-replicate (c ∷ x) n h

abbrev with_dots : ℕ → ℕ → List Dirent
with_dots d i =
    record { rd_ino = i; rd_name = dot }
    ∷ record { rd_ino = d; rd_name = dot_dot }
    ∷ replicate 126 no_entry

with_dots-Unique : (d i : ℕ) → Unique (with_dots d i)
with_dots-Unique d i = (
  (λ w. find_name-replicate dot 126 refl),
  ((λ w. find_name-replicate dot_dot 126 refl), replicate-Unique 126),
)

dots_lem :
    (d i : ℕ) (s : Ramfs)
    → s.inodes i ≡ some (made dir_type 0 i)
    → (n : Inode) × ((dots d i s ≡ some (set_inode i (some n) s))
        × HasDots d i (set_inode i (some n) s))
unfolding dots set_inode fresh replicate
dots_lem d i s h =
    let n : Inode = record (made dir_type 0 i) { mem = entries (with_dots d i); size = 64 } in
    (
      n,
      (
        rw h refl,
        record {
          dir = n;
          now = with_dots d i;
          is_dir = record { inode = ground arith; memory = refl; unique = with_dots-Unique d i };
          self = refl;
          parent = refl;
        },
      ),
    )

module _ (kmalloc page_alloc : Bool) where
  pub create-Added :
      (d len : ℕ) (name : List ℕ) (n : Inode) (es : List Dirent) (s : Ramfs)
      → IsDir d n es s
      → Named name len
      → find_name (take len name) es ≡ none
      → (r : Found × Ramfs) × ((ramfs_create kmalloc page_alloc d name len s ≡ some r)
          × Added kmalloc page_alloc d es (take len name) s r)
  unfolding ramfs_create create_in create_at
  create-Added d len name n es s k h g =
      let e = stored-take name len h in
      let p = room_lem d len name n es s k h.given g in
      elim (Option-cases (free_entry es)) [
        | inl z ↦ ((missing 28, s), (rw (p, z) refl, ((refl, refl), inl (free_entry-Full es z))))
        | inr (j, z) ↦ elim (alloc_inode-cases kmalloc page_alloc data_type 0 s) [
          | inl (w, c) ↦ ((missing 28, s), (rw (p, z, w) refl, ((refl, refl), inr c)))
          | inr (i, (w, x)) ↦
              let (s', (u, v)) = create_at-Added d i j len name n es s k z (rw e g) w in
              ((there i, s'), (rw (p, z, x) u, (w, rw (sym e) v)))
        ]
      ]

  pub mknod-Made :
      (d len mode dev : ℕ) (t : RamfsType) (name : List ℕ) (n : Inode) (es : List Dirent)
      (s : Ramfs)
      → IsDir d n es s
      → Named name len
      → find_name (take len name) es ≡ none
      → special_type mode ≡ some t
      → (r : Ret × Ramfs) × ((ramfs_mknod kmalloc page_alloc d name len mode dev s ≡ some r)
          × Made kmalloc page_alloc t d es (take len name) s r)
  unfolding ramfs_mknod mknod_in mknod_at
  mknod-Made d len mode dev t name n es s k h g st =
      let e = stored-take name len h in
      let p = room_lem d len name n es s k h.given g in
      elim (Option-cases (free_entry es)) [
        | inl z ↦ ((err 28, s), (rw (p, z) refl, ((refl, refl), inl (free_entry-Full es z))))
        | inr (j, z) ↦ elim (alloc_inode-cases kmalloc page_alloc t dev s) [
          | inl (w, c) ↦ ((err 28, s), (rw (p, z, st, w) refl, ((refl, refl), inr c)))
          | inr (i, (w, x)) ↦
              let s₁ = set_inode i (some (made t dev i)) s in
              let (n₁, k₁) = with_made d n es s k i (made t dev i) w in
              let (m', (u, v)) = set_entry-Maps d j i len name n₁ es s₁ k₁ z (rw e g) in
              (
                (ok 0, set_inode d (some m') s₁),
                (rw (p, z, st, x, u) refl, (refl, (i, (w, rw (sym e) v)))),
              )
        ]
      ]

  pub mkdir-Made :
      (d len : ℕ) (name : List ℕ) (n : Inode) (es : List Dirent) (s : Ramfs)
      → IsDir d n es s
      → Named name len
      → find_name (take len name) es ≡ none
      → (r : Ret × Ramfs) × ((ramfs_mkdir kmalloc page_alloc d name len s ≡ some r)
          × MadeDir kmalloc page_alloc d es (take len name) s r)
  unfolding ramfs_mkdir mkdir_in mkdir_at
  mkdir-Made d len name n es s k h g =
      let e = stored-take name len h in
      let p = room_lem d len name n es s k h.given g in
      elim (Option-cases (free_entry es)) [
        | inl z ↦ ((err 28, s), (rw (p, z) refl, ((refl, refl), inl (free_entry-Full es z))))
        | inr (j, z) ↦ elim (alloc_inode-cases kmalloc page_alloc dir_type 0 s) [
          | inl (w, c) ↦ ((err 28, s), (rw (p, z, w) refl, ((refl, refl), inr c)))
          | inr (i, (w, x)) ↦
              let s₁ = set_inode i (some (made dir_type 0 i)) s in
              let (n₁, k₁) = with_made d n es s k i (made dir_type 0 i) w in
              let (m', (u, v)) = set_entry-Maps d j i len name n₁ es s₁ k₁ z (rw e g) in
              let s₂ = set_inode d (some m') s₁ in
              let a = differs d n es s k i w in
              let q = set_inode_other d i m' (made dir_type 0 i) s a in
              let (c, (y, b)) = dots_lem d i s₂ q in
              let s₃ = set_inode i (some c) s₂ in
              (
                (ok 0, s₃),
                (
                  rw (p, z, x, u, y) refl,
                  (
                    refl,
                    (
                      i,
                      (
                        w,
                        (
                          rw (sym e) (
                              Keeps-Maps d es (stored name len) (some i) s₂ s₃ v
                                (set_inode-Keeps_other d i (some c) s₂ a)),
                          b,
                        ),
                      ),
                    ),
                  ),
                ),
              )
        ]
      ]

still_some :
    (d i : ℕ) (n m : Inode) (s : Ramfs)
    → s.inodes i ≡ some m
    → (c : Inode) × ((set_inode d (some n) s).inodes i ≡ some c)
unfolding set_inode
still_some d i n m s h = elim (Bool-cases (i == d)) [ inl p ↦ (n, rw p refl) | inr p ↦ (m, rw p h) ]

pub add_link-Linked :
    (old d len : ℕ) (name : List ℕ) (n m : Inode) (es : List Dirent) (s : Ramfs)
    → IsDir d n es s
    → Named name len
    → find_name (take len name) es ≡ none
    → s.inodes old ≡ some m
    → (r : Ret × Ramfs) × ((ramfs_link old d name len s ≡ some r)
        × Linked old d es (take len name) s r)
unfolding ramfs_link link_in link_more
add_link-Linked old d len name n m es s k h g mo =
    let e = stored-take name len h in
    let p = room_lem d len name n es s k h.given g in
    elim (Option-cases (free_entry es)) [
      | inl z ↦ ((err 28, s), (rw (p, z) refl, ((refl, refl), free_entry-Full es z)))
      | inr (j, z) ↦
          let (m', (u, v)) = set_entry-Maps d j old len name n es s k z (rw e g) in
          let s₁ = set_inode d (some m') s in
          let (c, y) = still_some d old m' m s mo in
          (
            (ok 0, set_inode old (some (record c { linkcount = c.linkcount + 1 })) s₁),
            (
              rw (p, z, u, y) refl,
              (
                refl,
                rw (sym e) (
                    Keeps-Maps d es (stored name len) (some old) s₁
                      (set_inode old (some (record c { linkcount = c.linkcount + 1 })) s₁) v
                      (set_inode-Keeps d old (c.linkcount + 1) c s₁ y)),
              ),
            ),
          )
    ]

-- In a directory without the name, whose length is from 1 to 27, ramfs_create, ramfs_mknod of a special
-- file, ramfs_mkdir and ramfs_link return. Each fails with ENOSPC and changes nothing, or adds
-- the name to the directory, which keeps every other name: for a free inode, or for the old vnode of
-- the link. A new directory has "." for itself and ".." for its parent. ENOSPC comes only of a
-- directory in which every entry has a name and, but for ramfs_link, of 64 inodes taken, of kmalloc
-- without memory, or of no page for a file or a directory.
pub additions-Added :
    (kmalloc page_alloc : Bool) (d len mode dev old : ℕ) (t : RamfsType) (m : Inode) (name : List ℕ)
    (n : Inode) (es : List Dirent) (s : Ramfs)
    → IsDir d n es s
    → Named name len
    → find_name (take len name) es ≡ none
    → special_type mode ≡ some t
    → s.inodes old ≡ some m
    → ((r : Found × Ramfs) × ((ramfs_create kmalloc page_alloc d name len s ≡ some r)
          × Added kmalloc page_alloc d es (take len name) s r))
      × (((r : Ret × Ramfs) × ((ramfs_mknod kmalloc page_alloc d name len mode dev s ≡ some r)
              × Made kmalloc page_alloc t d es (take len name) s r))
          × (((r : Ret × Ramfs) × ((ramfs_mkdir kmalloc page_alloc d name len s ≡ some r)
                  × MadeDir kmalloc page_alloc d es (take len name) s r))
              × ((r : Ret × Ramfs) × ((ramfs_link old d name len s ≡ some r)
                    × Linked old d es (take len name) s r))))
additions-Added kmalloc page_alloc d len mode dev old t m name n es s k h g st mo = (
  create-Added kmalloc page_alloc d len name n es s k h g,
  (
    mknod-Made kmalloc page_alloc d len mode dev t name n es s k h g st,
    (
      mkdir-Made kmalloc page_alloc d len name n es s k h g,
      add_link-Linked old d len name n m es s k h g mo,
    ),
  ),
)
