-- ===== src/Ramfs/Removals.antt =====
-- kernel/fs/ramfs/ramfs.c: the operations that remove an entry.
use abmp.Common.{
  ℕ, ◌+◌, ◌-◌, ◌≤◌, ◌<◌, ◌≡◌, ◌≢◌, refl, ◌∙◌, ◌⊎◌, inl, inr, true, false, ◌&&◌, Option, none, some,
  List, ◌==◌, if◌then◌else◌, ◌>>=◌, length, take, arith, Bool-cases, [], ◌∷◌, All,
}
use abmp.Files.{Ret, ok, err}
use abmp.Paths.{there}
use abmp.Ramfs.{
  Dirent, dir_type, entries, Inode, Ramfs, set_inode, vget, vput, mode_of, dir_mode, name_match,
  entries_at, is_empty, streq,
}
use abmp.Ramfs.Calls.{
  dot, dot_dot, found_in, ramfs_lookup, link_less, remove_from, unlink_found, ramfs_unlink,
  has_files, rmdir_found, ramfs_rmdir,
}
use abmp.Ramfs.Names.{streq_sound, find_name, find_entry-name}
use abmp.Ramfs.Keeps.{
  IsDir, Maps, Keeps-Maps, Keeps-trans, set_inode-Keeps_other, remove_entry-Maps,
}
use abmp.Ramfs.Counts.{Bound, Got, vget-Got, deleted, vput_lem}

-- The inode after its link has gone: it is freed with its last link, if no vnode is in use for it.
abbrev pub unlinked : ℕ → Inode → Option Inode
unlinked refs m =
    if refs == 0 && m.linkcount == 1 then none else some (record m { linkcount = m.linkcount - 1 })

-- Name and inode are gone, and the vnode's references are as before.
pub record Removed (d v : ℕ) (es : List Dirent) (y : List ℕ) (m : Inode) (s s' : Ramfs)
    : Type 0 where
  pub gone : Maps d es y none s'
  pub inode : s'.inodes v ≡ unlinked (s.vnodes v).refcount m
  pub counted : (s'.vnodes v).refcount ≡ (s.vnodes v).refcount

set_inode_here : (i : ℕ) (m : Inode) (s : Ramfs) → (set_inode i (some m) s).inodes i ≡ some m
unfolding set_inode
set_inode_here i m s = ground arith

set_inode_other :
    (d v : ℕ) (o : Option Inode) (s : Ramfs) → d ≢ v → (set_inode d o s).inodes v ≡ s.inodes v
unfolding set_inode
set_inode_other d v o s n = let p : (v == d) ≡ false = ground arith in rw p refl

link_less_lem :
    (v : ℕ) (m : Inode) (s : Ramfs)
    → s.inodes v ≡ some m
    → link_less v s ≡ some (set_inode v (some (record m { linkcount = m.linkcount - 1 })) s)
unfolding link_less
link_less_lem v m s h = rw h refl

set_inode-vnodes : (i : ℕ) (o : Option Inode) (s : Ramfs) → (set_inode i o s).vnodes ≡ s.vnodes
unfolding set_inode
set_inode-vnodes i o s = refl

unlinked_lem :
    (r : ℕ) (m : Inode)
    → 0 < m.linkcount
    → (let c = if r == 0 then m.linkcount + 1 else m.linkcount in
        let m' : Inode = record m { linkcount = c - 1 } in
        (if r == 0 then deleted m' else some m') ≡ unlinked r m)
unlinked_lem r m h = elim (Bool-cases (r == 0)) [
  | inl z ↦ let e : m.linkcount + 1 - 1 ≡ m.linkcount = omega arith in rw (z, e) refl
  | inr z ↦ rw z refl
]

remove_from-Removed :
    (d v len : ℕ) (name : List ℕ) (n m : Inode) (es : List Dirent) (s s₁ : Ramfs)
    → IsDir d n es s₁
    → len ≤ length name
    → d ≢ v
    → 0 < m.linkcount
    → Got v m s s₁
    → (s' : Ramfs) × ((remove_from d name len v s₁ ≡ some (ok 0, s'))
        × Removed d v es (take len name) m s s')
unfolding remove_from
remove_from-Removed d v len name n m es s s₁ k h a l g =
    let y = take len name in
    let r = (s.vnodes v).refcount in
    let c : ℕ = if r == 0 then m.linkcount + 1 else m.linkcount in
    let m₁ : Inode = record m { linkcount = c } in
    let (m', (p, maps)) = remove_entry-Maps d len name n es s₁ k h in
    let s₂ = set_inode d (some m') s₁ in
    let i₂ : s₂.inodes v ≡ some m₁ = set_inode_other d v (some m') s₁ a ∙ g.inode in
    let m₂ : Inode = record m { linkcount = c - 1 } in
    let s₃ = set_inode v (some m₂) s₂ in
    let w : (s₃.vnodes v).refcount ≡ r + 1 = g.counted in
    let (s₄, (q, (kp, (iv, rc)))) = vput_lem d v r m₂ s₃ a (set_inode_here v m₂ s₂) w in
    (
      s₄,
      (
        rw (p, link_less_lem v m₁ s₂ i₂, q) refl,
        record {
          gone =
              Keeps-Maps d es y none s₂ s₄ maps
                (Keeps-trans d s₂ s₃ s₄ (set_inode-Keeps_other d v (some m₂) s₂ a) kp);
          inode = iv ∙ unlinked_lem r m l;
          counted = rc;
        },
      ),
    )

lookup_lem :
    (d v len : ℕ) (name : List ℕ) (n m : Inode) (es : List Dirent) (s s₁ : Ramfs)
    → IsDir d n es s
    → len ≤ length name
    → find_name (take len name) es ≡ some v
    → vget v s ≡ some s₁
    → ramfs_lookup d name len s ≡ some (there v, s₁)
unfolding ramfs_lookup found_in entries_at
lookup_lem d v len name n m es s s₁ k h f g =
    rw (k.inode, k.memory, find_entry-name name len es h, f, g) refl

-- ramfs_unlink of a name that is there, for another inode than the directory's and one that is no
-- directory, returns 0 and removes that name and no other; the inode loses a link, and is freed where
-- it was the last and its vnode is not in use; the references of the vnode are as before.
pub unlink-Removed :
    (d v len : ℕ) (name : List ℕ) (n m : Inode) (es : List Dirent) (s : Ramfs)
    → IsDir d n es s
    → len ≤ length name
    → find_name (take len name) es ≡ some v
    → d ≢ v
    → Bound v m s
    → (mode_of m.kind == dir_mode) ≡ false
    → (s' : Ramfs) × ((ramfs_unlink d name len s ≡ some (ok 0, s'))
        × Removed d v es (take len name) m s s')
unfolding ramfs_unlink unlink_found
unlink-Removed d v len name n m es s k h f a b t =
    let (s₁, (p, (kp, g))) = vget-Got d v m s b in
    let (n₁, k₁) = kp n es k in
    let (s', (q, r)) = remove_from-Removed d v len name n₁ m es s s₁ k₁ h a b.linked g in
    (s', (rw (lookup_lem d v len name n m es s s₁ k h f p, g.mode, t) q, r))

-- A directory that stays: the error number, the directory's entries and the references are as before.
pub record Stays (d v : ℕ) (es : List Dirent) (e : ℕ) (s : Ramfs) (r : Ret × Ramfs) : Type 0 where
  pub error : r.0 ≡ err e
  pub dir : Inode
  pub is_dir : IsDir d dir es r.1
  pub counted : (r.1.vnodes v).refcount ≡ (s.vnodes v).refcount

put_back :
    (d v e : ℕ) (n m : Inode) (es : List Dirent) (s s₁ : Ramfs)
    → IsDir d n es s₁
    → d ≢ v
    → Got v m s s₁
    → (r : Ret × Ramfs) × (((vput v s₁ >>= λ s'. some (err e, s')) ≡ some r) × Stays d v es e s r)
put_back d v e n m es s s₁ k a g =
    let (s₂, (p, (kp, (i, c)))) =
      vput_lem d v (s.vnodes v).refcount
        (record m {
          linkcount = if (s.vnodes v).refcount == 0 then m.linkcount + 1 else m.linkcount;
        })
        s₁ a g.inode g.counted in
    let (n', k') = kp n es k in
    ((err e, s₂), (rw p refl, record { error = refl; dir = n'; is_dir = k'; counted = c }))

-- What an inode holds: the entries of a directory, or `none`.
abbrev pub Holds : Inode → Option (List Dirent) → Type 0
Holds m none = (mode_of m.kind == dir_mode) ≡ false
Holds m (some sub) = (m.kind ≡ dir_type) × (m.mem ≡ entries sub)

-- An entry of no file: it has no name, or is "." or "..".
abbrev pub NoFile : Dirent → Type 0
NoFile e = (e.rd_name ≡ []) ⊎ ((e.rd_name ≡ dot) ⊎ (e.rd_name ≡ dot_dot))

dots_differ : (e : Dirent) → NoFile e → (x : List Dirent) → has_files (e ∷ x) ≡ has_files x
dots_differ e (inl p) x = rw p refl
dots_differ e (inr (inl p)) x = rw p refl
dots_differ e (inr (inr p)) x = rw p refl

has_files-NoFile : (es : List Dirent) → All NoFile es → has_files es ≡ false
has_files-NoFile [] h = refl
has_files-NoFile (e ∷ es) h = dots_differ e h.0 es ∙ has_files-NoFile es h.1

no_name : (x : List ℕ) → is_empty x ≡ true → x ≡ []
no_name [] h = refl
no_name (c ∷ x) h = cc

NoFile-has_files : (es : List Dirent) → has_files es ≡ false → All NoFile es
NoFile-has_files [] h = tt
NoFile-has_files (e ∷ es) h = elim (Bool-cases (streq e.rd_name dot)) [
  | inl p ↦ (inr (inl (streq_sound e.rd_name dot p)), NoFile-has_files es (ground (arith, h, p)))
  | inr p ↦ elim (Bool-cases (streq e.rd_name dot_dot)) [
    | inl q ↦
        (inr (inr (streq_sound e.rd_name dot_dot q)), NoFile-has_files es (ground (arith, h, p, q)))
    | inr q ↦ (
      inl (no_name e.rd_name (ground (arith, h, p, q))),
      NoFile-has_files es (ground (arith, h, p, q)),
    )
  ]
]

-- `ramfs_rmdir` of a name that is there, by what its inode holds.
abbrev pub Outcome :
    ℕ → ℕ → List Dirent → List ℕ → Inode → Option (List Dirent) → Ramfs → Ret × Ramfs → Type 0
Outcome d v es y m none s r = Stays d v es 20 s r
Outcome d v es y m (some sub) s r =
    (¬ All NoFile sub × Stays d v es 39 s r)
    ⊎ (All NoFile sub × ((r.0 ≡ ok 0) × Removed d v es y m s r.1))

rmdir_found-Outcome :
    (d v len : ℕ) (name : List ℕ) (n m : Inode) (es : List Dirent) (o : Option (List Dirent))
    (s s₁ : Ramfs)
    → IsDir d n es s₁
    → len ≤ length name
    → d ≢ v
    → 0 < m.linkcount
    → Got v m s s₁
    → Holds m o
    → (r : Ret × Ramfs) × ((rmdir_found d name len (there v, s₁) ≡ some r)
        × Outcome d v es (take len name) m o s r)
unfolding rmdir_found entries_at
rmdir_found-Outcome d v len name n m es none s s₁ k h a l g o =
    let (r, (p, q)) = put_back d v 20 n m es s s₁ k a g in (r, (rw (g.mode, o) p, q))
rmdir_found-Outcome d v len name n m es (some sub) s s₁ k h a l g o =
    let t : (mode_of m.kind == dir_mode) ≡ true = rw o.0 refl in
    elim (Bool-cases (has_files sub)) [
      | inl z ↦
          let (r, (p, q)) = put_back d v 39 n m es s s₁ k a g in
          (
            r,
            (
              rw (g.mode, t, g.inode, o.1, z) p,
              inl ((λ w. let f = has_files-NoFile sub w in cc), q),
            ),
          )
      | inr z ↦
          let (s', (p, q)) = remove_from-Removed d v len name n m es s s₁ k h a l g in
          ((ok 0, s'), (rw (g.mode, t, g.inode, o.1, z) p, inr (NoFile-has_files sub z, (refl, q))))
    ]

-- ramfs_rmdir of a name that is there, other than "." and "..", for another inode than the
-- directory's, returns. For what is no directory it fails with ENOTDIR, for a directory with an entry
-- other than "." and ".." with ENOTEMPTY, and keeps the entries and the references; for an empty
-- directory it returns 0 and removes the name and no other, and the inode loses a link as in
-- ramfs_unlink.
pub rmdir-Outcome :
    (d v len : ℕ) (name : List ℕ) (n m : Inode) (es : List Dirent) (o : Option (List Dirent))
    (s : Ramfs)
    → IsDir d n es s
    → len ≤ length name
    → name_match dot name len ≡ false
    → name_match dot_dot name len ≡ false
    → find_name (take len name) es ≡ some v
    → d ≢ v
    → Bound v m s
    → Holds m o
    → (r : Ret × Ramfs) × ((ramfs_rmdir d name len s ≡ some r)
        × Outcome d v es (take len name) m o s r)
unfolding ramfs_rmdir
rmdir-Outcome d v len name n m es o s k h x y f a b c =
    let (s₁, (p, (kp, g))) = vget-Got d v m s b in
    let (n₁, k₁) = kp n es k in
    let (r, (q, z)) = rmdir_found-Outcome d v len name n₁ m es o s s₁ k₁ h a b.linked g c in
    (r, (rw (x, y, lookup_lem d v len name n m es s s₁ k h f p) q, z))
