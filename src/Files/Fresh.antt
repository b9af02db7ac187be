-- ===== src/Files/Fresh.antt =====
-- kernel/fs/open.c: the new file of do_open, before and after a descriptor names it.
use abmp.Common.{
  ℕ, ◌+◌, ◌<◌, ◌≡◌, refl, ap, ◌∙◌, inl, inr, ltb, true, Option, none, some, ◌==◌, if◌then◌else◌,
  length, arith, Bool-cases,
}
use abmp.Files.{File, Fds, is_some, set_file, count_to, pos_ok, fref, fput}
use abmp.Files.Refs.{Held, refs, here}
use abmp.Files.Open.{mode_of_flags, zeroed, fget_new}

-- The same state but for the one file.
pub record Only (new : ℕ) (x : File) (s s' : Fds) : Type 0 where
  pub table : s'.fds ≡ s.fds
  pub files : (g : ℕ) → s'.file g ≡ (if new == g then x else s.file g)

abbrev pub fresh_file : ℕ → ℕ → Option ℕ → File
fresh_file m n o = record { pos = 0; mode = m; refcount = n; vnode = o }

pub fget_new-Only :
    (new : ℕ) (s : Fds)
    → (s' : Fds) × ((fget_new new s ≡ some s') × Only new (fresh_file 0 1 none) s s')
unfolding fget_new fref count_to set_file
fget_new-Only new s =
    let z : (new == new) ≡ true = ground arith in
    (
      count_to new 1 (set_file new zeroed s),
      (
        rw z refl,
        record {
          table = refl;
          files = λ g. elim (Bool-cases (new == g)) [ inl e ↦ rw (e, z) refl | inr e ↦ rw e refl ];
        },
      ),
    )

pub set_file-Only :
    (new : ℕ) (x y : File) (s s' : Fds) → Only new x s s' → Only new y s (set_file new y s')
unfolding set_file
set_file-Only new x y s s' o = record {
  table = o.table;
  files = λ g. elim (Bool-cases (new == g)) [
    | inl e ↦ rw e refl
    | inr e ↦ let q = o.files g in rw e (q ∙ rw e refl)
  ];
}

pub Only-new : (new : ℕ) (x : File) (s s' : Fds) → Only new x s s' → s'.file new ≡ x
Only-new new x s s' o = let z : (new == new) ≡ true = ground arith in o.files new ∙ rw z refl

pub set_mode-Only :
    (new k m : ℕ) (s s' : Fds)
    → Only new (fresh_file k 1 none) s s'
    → Only new (fresh_file m 1 none) s (set_file new (record (s'.file new) { mode = m }) s')
set_mode-Only new k m s s' o =
    rw (Only-new new (fresh_file k 1 none) s s' o)
      (set_file-Only new (fresh_file k 1 none) (fresh_file m 1 none) s s' o)

pub set_vnode-Only :
    (new m v : ℕ) (s s' : Fds)
    → Only new (fresh_file m 1 none) s s'
    → Only new
        (fresh_file m 1 (some v))
        s
        (set_file new (record (s'.file new) { vnode = some v }) s')
set_vnode-Only new m v s s' o =
    rw (Only-new new (fresh_file m 1 none) s s' o)
      (set_file-Only new (fresh_file m 1 none) (fresh_file m 1 (some v)) s s' o)

pub fput-Only :
    (new m : ℕ) (s s' : Fds)
    → Only new (fresh_file m 1 none) s s'
    → m < 8
    → (s'' : Fds) × ((fput new s' ≡ some s'') × Only new (fresh_file m 0 none) s s'')
unfolding fput count_to
fput-Only new m s s' o h =
    let e = Only-new new (fresh_file m 1 none) s s' o in
    let l : ltb m 8 ≡ true = ground arith in
    (
      set_file new (fresh_file m 0 none) s',
      (rw (e, l) refl, set_file-Only new (fresh_file m 1 none) (fresh_file m 0 none) s s' o),
    )

-- A file that no descriptor names, and its count.
pub free-Held :
    (new m : ℕ) (s s' : Fds)
    → Held none s
    → (s.file new).refcount ≡ 0
    → Only new (fresh_file m 0 none) s s'
    → m < 8
    → Held none s'
free-Held new m s s' inv z o h = record {
  table = ap length o.table ∙ inv.table;
  counts = λ g. rw (o.files g, o.table) (count g);
  modes = λ g. rw (o.files g) (mode g);
  places = λ g. rw (o.files g) (place g);
  vnodes = λ g. rw (o.files g) (vnode g);
}
  where
    count :
        (g : ℕ) → ((if new == g then fresh_file m 0 none else s.file g).refcount ≡ refs g s.fds + 0)
    count g = ground (arith, inv.counts g, z)

    mode : (g : ℕ) → ltb (if new == g then fresh_file m 0 none else s.file g).mode 8 ≡ true
    mode g = ground (arith, inv.modes g, h)

    place : (g : ℕ) → pos_ok (if new == g then fresh_file m 0 none else s.file g).pos ≡ true
    place g = ground (arith, inv.places g)

    vnode :
        (g : ℕ)
        → 0 < (if new == g then fresh_file m 0 none else s.file g).refcount
        → is_some (if new == g then fresh_file m 0 none else s.file g).vnode ≡ true
    vnode g = elim (Bool-cases (new == g)) [
      | inl e ↦ rw e (λ w. absurd (omega arith))
      | inr e ↦ rw e (inv.vnodes g)
    ]

pub used-Held :
    (new m v : ℕ) (s s' : Fds)
    → Held none s
    → (s.file new).refcount ≡ 0
    → Only new (fresh_file m 1 (some v)) s s'
    → m < 8
    → Held (some new) s'
used-Held new m v s s' inv z o h = record {
  table = ap length o.table ∙ inv.table;
  counts = λ g. rw (o.files g, o.table) (count g);
  modes = λ g. rw (o.files g) (mode g);
  places = λ g. rw (o.files g) (place g);
  vnodes = λ g. rw (o.files g) (vnode g);
}
  where
    count :
        (g : ℕ)
        → (if new == g then fresh_file m 1 (some v) else s.file g).refcount
          ≡ refs g s.fds + here g (some new)
    count g = ground (arith, inv.counts g, z)

    mode : (g : ℕ) → ltb (if new == g then fresh_file m 1 (some v) else s.file g).mode 8 ≡ true
    mode g = ground (arith, inv.modes g, h)

    place : (g : ℕ) → pos_ok (if new == g then fresh_file m 1 (some v) else s.file g).pos ≡ true
    place g = ground (arith, inv.places g)

    vnode :
        (g : ℕ)
        → 0 < (if new == g then fresh_file m 1 (some v) else s.file g).refcount
        → is_some (if new == g then fresh_file m 1 (some v) else s.file g).vnode ≡ true
    vnode g = elim (Bool-cases (new == g)) [
      | inl e ↦ rw e (λ w. refl)
      | inr e ↦ rw e (inv.vnodes g)
    ]

pub mode_of_flags-bound : (oflags m : ℕ) → mode_of_flags oflags ≡ some m → m < 8
mode_of_flags-bound oflags m h = ground (arith, h)
