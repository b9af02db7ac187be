-- ===== src/Ramfs/Keeps.antt =====
-- kernel/fs/ramfs/ramfs.c: what the steps of the operations keep of each directory.
use abmp.Common.{
  ℕ, zero, suc, ◌+◌, ◌-◌, ◌≤◌, ◌<◌, ◌≡◌, ◌≢◌, refl, sym, ap, ◌∙◌, ◌⊎◌, inl, inr, Bool, true, false,
  not, ◌&&◌, ltb, Option, none, some, List, ◌==◌, if◌then◌else◌, length, set, take, arith,
  Bool-cases, Option-cases,
}
use abmp.Files.{ok, err}
use abmp.Ramfs.{
  RamfsType, data_type, dir_type, chr_type, blk_type, Dirent, entries, Inode, Vnode, Ramfs,
  set_inode, set_vnode, read_vnode, vget, free_inode, fresh, mode_of, alloc_inode, needs_page,
  streq, is_empty, free_entry, stored,
}
use abmp.Ramfs.Calls.{set_entry, remove_entry}
use abmp.Ramfs.Names.{
  find_name, clear_name, clear_entry-name, Unique, find_name-set, find_name-clear, set-Unique,
  clear-Unique,
}

-- An allocated inode that is a directory with these entries.
pub record IsDir (d : ℕ) (n : Inode) (es : List Dirent) (s : Ramfs) : Type 0 where
  pub inode : s.inodes d ≡ some n
  pub memory : n.mem ≡ entries es
  pub unique : Unique es

abbrev pub Keeps : ℕ → Ramfs → Ramfs → Type 0
Keeps d s s' = (n : Inode) (es : List Dirent) → IsDir d n es s → (n' : Inode) × IsDir d n' es s'

-- The directory maps the name `y` to `o` now, and every other name as the entries `es` do.
pub record Maps (d : ℕ) (es : List Dirent) (y : List ℕ) (o : Option ℕ) (s : Ramfs) : Type 0 where
  pub dir : Inode
  pub now : List Dirent
  pub is_dir : IsDir d dir now s
  pub names :
      (x : List ℕ)
      → is_empty x ≡ false
      → find_name x now ≡ (if streq y x then o else find_name x es)

pub Keeps-Maps :
    (d : ℕ) (es : List Dirent) (y : List ℕ) (o : Option ℕ) (s s' : Ramfs)
    → Maps d es y o s
    → Keeps d s s'
    → Maps d es y o s'
Keeps-Maps d es y o s s' m k =
    let (n', i) = k m.dir m.now m.is_dir in
    record { dir = n'; now = m.now; is_dir = i; names = m.names }

-- An inode with another count.
pub set_inode-Keeps :
    (d i c : ℕ) (m : Inode) (s : Ramfs)
    → s.inodes i ≡ some m
    → Keeps d s (set_inode i (some (record m { linkcount = c })) s)
unfolding set_inode
set_inode-Keeps d i c m s h n es k = elim (Bool-cases (d == i)) [
  | inl p ↦
      let q : d ≡ i = ground arith in
      let e : some m ≡ some n = sym h ∙ (ap s.inodes (sym q) ∙ k.inode) in
      (
        record m { linkcount = c },
        record {
          inode = rw p refl;
          memory = let u : m ≡ n = cc in rw u k.memory;
          unique = k.unique;
        },
      )
  | inr p ↦ (n, record { inode = rw p k.inode; memory = k.memory; unique = k.unique })
]

pub set_inode-Keeps_other :
    (d i : ℕ) (o : Option Inode) (s : Ramfs) → d ≢ i → Keeps d s (set_inode i o s)
unfolding set_inode
set_inode-Keeps_other d i o s h n es k =
    let p : (d == i) ≡ false = ground arith in
    (n, record { inode = rw p k.inode; memory = k.memory; unique = k.unique })

pub set_vnode-Keeps : (d i : ℕ) (v : Vnode) (s : Ramfs) → Keeps d s (set_vnode i v s)
unfolding set_vnode
set_vnode-Keeps d i v s n es k =
    (n, record { inode = k.inode; memory = k.memory; unique = k.unique })

pub Keeps-trans : (d : ℕ) (s s' s'' : Ramfs) → Keeps d s s' → Keeps d s' s'' → Keeps d s s''
Keeps-trans d s s' s'' k l n es h = let (n', i) = k n es h in l n' es i

pub vget-Keeps :
    (d i : ℕ) (m : Inode) (s : Ramfs)
    → s.inodes i ≡ some m
    → m.ino ≡ i
    → (s' : Ramfs) × ((vget i s ≡ some s') × Keeps d s s')
unfolding vget read_vnode
vget-Keeps d i m s h g = elim (Bool-cases (ltb 0 (s.vnodes i).refcount)) [
  | inl p ↦
      let v : Vnode = record (s.vnodes i) { refcount = (s.vnodes i).refcount + 1 } in
      (set_vnode i v s, (rw p refl, set_vnode-Keeps d i v s))
  | inr p ↦
      let q : (m.ino == i) ≡ true = ground arith in
      let s₁ = set_inode i (some (record m { linkcount = m.linkcount + 1 })) s in
      let v : Vnode = record { refcount = 1; vn_len = m.size; vn_mode = mode_of m.kind } in
      (
        set_vnode i v s₁,
        (
          rw (p, h, q) refl,
          Keeps-trans d s s₁ (set_vnode i v s₁) (set_inode-Keeps d i (m.linkcount + 1) m s h)
              (set_vnode-Keeps d i v s₁),
        ),
      )
]

-- A new entry, under a name that is not there.
pub set_entry-Maps :
    (d i ino len : ℕ) (name : List ℕ) (n : Inode) (es : List Dirent) (s : Ramfs)
    → IsDir d n es s
    → free_entry es ≡ some i
    → find_name (stored name len) es ≡ none
    → (m : Inode) × ((set_entry d i ino name len s ≡ some (set_inode d (some m) s))
        × Maps d es (stored name len) (some ino) (set_inode d (some m) s))
unfolding set_entry set_inode
set_entry-Maps d i ino len name n es s k hf hn =
    let e : Dirent = record { rd_ino = ino; rd_name = stored name len } in
    let m : Inode = record n { mem = entries (set es i e); size = n.size + 32 } in
    (
      m,
      (
        rw (k.inode, k.memory) refl,
        record {
          dir = m;
          now = set es i e;
          is_dir = record {
            inode = ground arith;
            memory = refl;
            unique = set-Unique (stored name len) ino i es hf hn k.unique;
          };
          names = λ x hx. find_name-set x (stored name len) ino i es hx hf hn;
        },
      ),
    )

pub remove_entry-Maps :
    (d len : ℕ) (name : List ℕ) (n : Inode) (es : List Dirent) (s : Ramfs)
    → IsDir d n es s
    → len ≤ length name
    → (m : Inode) × ((remove_entry d name len s ≡ some (set_inode d (some m) s))
        × Maps d es (take len name) none (set_inode d (some m) s))
unfolding remove_entry set_inode
remove_entry-Maps d len name n es s k h =
    let y = take len name in
    let m : Inode = record n { mem = entries (clear_name y es); size = n.size - 32 } in
    (
      m,
      (
        rw (k.inode, k.memory, clear_entry-name name len es h) refl,
        record {
          dir = m;
          now = clear_name y es;
          is_dir = record {
            inode = ground arith;
            memory = refl;
            unique = clear-Unique y es k.unique;
          };
          names = λ x hx. find_name-clear x y es hx k.unique;
        },
      ),
    )

free_inode-here : (n i : ℕ) (f : ℕ → Option Inode) → f i ≡ none → free_inode (suc n) i f ≡ some i
unfolding free_inode
free_inode-here n i f p = rw (free_inode, p) refl

free_inode-next :
    (n i : ℕ) (f : ℕ → Option Inode) (m : Inode)
    → f i ≡ some m
    → free_inode (suc n) i f ≡ free_inode n (i + 1) f
unfolding free_inode
free_inode-next n i f m p = rw (free_inode, p) refl

free_inode_lem : (n i j : ℕ) (f : ℕ → Option Inode) → free_inode n i f ≡ some j → f j ≡ none
unfolding free_inode
free_inode_lem zero i j f h = cc
free_inode_lem (suc n) i j f h = elim (Option-cases (f i)) [
  | inl p ↦
      let u : some i ≡ some j = sym (free_inode-here n i f p) ∙ h in let v : i ≡ j = cc in rw v at p
  | inr (m, p) ↦ free_inode_lem n (i + 1) j f (sym (free_inode-next n i f m p) ∙ h)
]

-- The inode that `alloc_inode` makes.
abbrev pub made : RamfsType → ℕ → ℕ → Inode
made t dev i = record { size = 0; ino = i; mem = fresh t dev; kind = t; linkcount = 1 }

-- No inode can be made: the 64 are taken, `kmalloc` finds no memory, or there is no page for the data.
abbrev pub NoInode : Bool → Bool → RamfsType → Ramfs → Type 0
NoInode k p t s =
    ((i : ℕ) → i < 64 → s.inodes i ≢ none)
    ⊎ ((k ≡ false) ⊎ (((t ≡ data_type) ⊎ (t ≡ dir_type)) × (p ≡ false)))

all_taken :
    (n i : ℕ) (f : ℕ → Option Inode)
    → free_inode n i f ≡ none
    → (j : ℕ) → i ≤ j
    → j < i + n
    → f j ≢ none
unfolding free_inode
all_taken zero i f h j l u p = absurd (omega (arith, l, u))
all_taken (suc n) i f h j l u p = elim (Option-cases (f i)) [
  | inl z ↦ let q : some i ≡ none = sym (free_inode-here n i f z) ∙ h in cc
  | inr (m, z) ↦
      let r : free_inode n (i + 1) f ≡ none = sym (ground (arith, z)) ∙ h in
      elim (Bool-cases (i == j)) [
        | inl e ↦ let a : i ≡ j = ground arith in let b : f i ≡ none = ap f a ∙ p in cc
        | inr e ↦ all_taken n (i + 1) f r j (ground arith) (omega (arith, u)) p
      ]
]

page_for :
    (t : RamfsType) (p : Bool)
    → (needs_page t && not p) ≡ true
    → ((t ≡ data_type) ⊎ (t ≡ dir_type)) × (p ≡ false)
page_for data_type false h = (inl refl, refl)
page_for dir_type false h = (inr refl, refl)
page_for data_type true h = cc
page_for dir_type true h = cc
page_for chr_type p h = cc
page_for blk_type p h = cc

pub alloc_inode-cases :
    (k p : Bool) (t : RamfsType) (dev : ℕ) (s : Ramfs)
    → ((alloc_inode k p t dev s ≡ (err 28, s)) × NoInode k p t s)
      ⊎ ((i : ℕ) × ((s.inodes i ≡ none)
            × (alloc_inode k p t dev s ≡ (ok i, set_inode i (some (made t dev i)) s))))
unfolding alloc_inode
alloc_inode-cases k p t dev s = elim (Option-cases (free_inode 64 0 s.inodes)) [
  | inl e ↦
      inl (rw e refl, inl (λ i h. all_taken 64 0 s.inodes e i (omega arith) (omega (arith, h))))
  | inr (i, e) ↦ elim (Bool-cases k) [
    | inr z ↦ inl (rw (e, z) refl, inr (inl z))
    | inl z ↦ elim (Bool-cases (needs_page t && not p)) [
      | inl w ↦ inl (rw (e, z, w) refl, inr (inr (page_for t p w)))
      | inr w ↦ inr (i, (free_inode_lem 64 0 i s.inodes e, rw (e, z, w) refl))
    ]
  ]
]
