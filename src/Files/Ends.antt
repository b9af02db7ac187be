-- ===== src/Files/Ends.antt =====
-- kernel/fs/vfs_syscall.c: how a call ends that holds a reference to an open file.
use abmp.Common.{
  ℕ, zero, suc, ◌+◌, ◌-◌, ◌≡◌, refl, sym, ap, ◌∙◌, true, false, Option, none, some, ◌==◌, u32,
  arith,
}
use abmp.Files.{Fds, Ret, ok, err, slot, set_file, count_to, pos_ok, fref, fref_open, fget, fput}
use abmp.Files.Refs.{Held, fput_lem}
use abmp.Files.Seek.{set_pos, set_pos-Held, set_pos-pos}
use abmp.Files.Io.{put_file, advance, advance_dir}

-- The counts are right, the descriptors stay, and the position of the file is `p`.
pub record Done (f p : ℕ) (s s' : Fds) : Type 0 where
  pub held : Held none s'
  pub table : s'.fds ≡ s.fds
  pub pos : (s'.file f).pos ≡ p

pub count_to-mode : (f g n : ℕ) (s : Fds) → ((count_to f n s).file g).mode ≡ (s.file g).mode
unfolding count_to set_file
count_to-mode f g n s = ground arith

-- A call returns `r` and leaves `w`.
abbrev pub Ends : {S : Type 0} → ℕ → ℕ → Fds → Ret × S → Option (Ret × (Fds × S)) → Type 0
Ends f p s r c = (s' : Fds) × ((c ≡ some (r.0, (s', r.1))) × Done f p s s')

pub put_file-Ends :
    {S : Type 0} (f p : ℕ) (r : Ret) (s s₀ : Fds) (w : S)
    → Held (some f) s
    → s.fds ≡ s₀.fds
    → (s.file f).pos ≡ p
    → Ends f p s₀ (r, w) (put_file f r s w)
put_file-Ends f p r s s₀ w h t q =
    let (s', (e, u)) = fput_lem f s h in
    (
      s',
      (
        rw e refl,
        record { held = u.held; table = u.alike.table ∙ t; pos = u.alike.positions f ∙ q },
      ),
    )

-- The position after a result.
abbrev pub moved : ℕ → Ret → ℕ
moved p (ok i) = u32 (p + i)
moved p (err e) = p

pub set_pos-Ends :
    {S : Type 0} (f p : ℕ) (r : Ret) (s s₀ : Fds) (w : S)
    → Held (some f) s
    → s.fds ≡ s₀.fds
    → pos_ok p ≡ true
    → Ends f p s₀ (r, w) (put_file f r (set_pos f p s) w)
set_pos-Ends f p r s s₀ w h t l =
    let (a, b) = set_pos-pos f p s in
    put_file-Ends f p r (set_pos f p s) s₀ w (set_pos-Held f p s l h) (b ∙ t) a

pub advance_pos-Ends :
    {S : Type 0} (f : ℕ) (s s₀ : Fds) (r : Ret × S)
    → Held (some f) s
    → s.fds ≡ s₀.fds
    → pos_ok (moved (s.file f).pos r.0) ≡ true
    → Ends f (moved (s.file f).pos r.0) s₀ r (advance f s r)
unfolding advance
advance_pos-Ends f s s₀ (err e, w) h t l = put_file-Ends f (s.file f).pos (err e) s s₀ w h t refl
advance_pos-Ends f s s₀ (ok i, w) h t l =
    set_pos-Ends f (u32 ((s.file f).pos + i)) (ok i) s s₀ w h t l

pub advance-Ends :
    {S : Type 0} (f p : ℕ) (s s₀ : Fds) (r : Ret × S)
    → Held (some f) s
    → s.fds ≡ s₀.fds
    → (s.file f).pos ≡ p
    → pos_ok (moved p r.0) ≡ true
    → Ends f (moved p r.0) s₀ r (advance f s r)
advance-Ends f p s s₀ r h t q l =
    rw (sym q) (advance_pos-Ends f s s₀ r h t (ap (λ z. pos_ok (moved z r.0)) q ∙ l))

-- What `do_getdent` returns and where it leaves the position.
abbrev pub dirent_result : Ret → Ret
dirent_result (ok zero) = ok 0
dirent_result (ok (suc i)) = ok 40
dirent_result (err e) = err e

abbrev pub dirent_pos : ℕ → Ret → ℕ
dirent_pos p (ok i) = u32 (p + i)
dirent_pos p (err e) = u32 (p + (4294967296 - e))

pub advance_dir_pos-Ends :
    {S : Type 0} (f : ℕ) (s s₀ : Fds) (r : Ret × S)
    → Held (some f) s
    → s.fds ≡ s₀.fds
    → pos_ok (dirent_pos (s.file f).pos r.0) ≡ true
    → Ends f (dirent_pos (s.file f).pos r.0) s₀ (dirent_result r.0, r.1) (advance_dir f s r)
unfolding advance_dir
advance_dir_pos-Ends f s s₀ (err e, w) h t l =
    set_pos-Ends f (u32 ((s.file f).pos + (4294967296 - e))) (err e) s s₀ w h t l
advance_dir_pos-Ends f s s₀ (ok zero, w) h t l =
    set_pos-Ends f (u32 ((s.file f).pos + 0)) (ok 0) s s₀ w h t l
advance_dir_pos-Ends f s s₀ (ok (suc i), w) h t l =
    set_pos-Ends f (u32 ((s.file f).pos + suc i)) (ok 40) s s₀ w h t l

pub advance_dir-Ends :
    {S : Type 0} (f p : ℕ) (s s₀ : Fds) (r : Ret × S)
    → Held (some f) s
    → s.fds ≡ s₀.fds
    → (s.file f).pos ≡ p
    → pos_ok (dirent_pos p r.0) ≡ true
    → Ends f (dirent_pos p r.0) s₀ (dirent_result r.0, r.1) (advance_dir f s r)
advance_dir-Ends f p s s₀ r h t q l =
    rw (sym q) (advance_dir_pos-Ends f s s₀ r h t (ap (λ z. pos_ok (dirent_pos z r.0)) q ∙ l))

-- The state after one more reference was taken, the position set, and the reference put down.
unfoldable pub again : ℕ → ℕ → Fds → Fds
unfolding count_to set_pos
again f p s = count_to f (s.file f).refcount (set_pos f p (count_to f ((s.file f).refcount + 1) s))

pub again-Held :
    (f p : ℕ) (s : Fds) → pos_ok p ≡ true → Held (some f) s → Held (some f) (again f p s)
unfolding again set_file
again-Held f p s hp inv = record {
  table = inv.table;
  counts = λ g. ground (arith, inv.counts g, inv.counts f);
  modes = λ g. ground (arith, inv.modes g, inv.modes f);
  places = λ g. ground (arith, inv.places g, hp);
  vnodes = λ g hg. ground (arith, inv.vnodes g, inv.vnodes f);
}

pub again_same :
    (f p : ℕ) (s : Fds)
    → ((again f p s).fds ≡ s.fds)
      × ((((again f p s).file f).pos ≡ p) × (((again f p s).file f).vnode ≡ (s.file f).vnode))
unfolding again set_file
again_same f p s = (refl, (ground arith, ground arith))

pub fget_again :
    (fd f : ℕ) (s : Fds)
    → Held (some f) s
    → slot s.fds fd ≡ some f
    → fget fd s ≡ some (some f, count_to f ((s.file f).refcount + 1) s)
unfolding fget fref_open fref count_to
fget_again fd f s inv e =
    let hv = inv.vnodes f (ground (arith, inv.counts f)) in
    rw (e, inv.modes f, inv.places f, hv) ground arith

pub fput_shared :
    (f p : ℕ) (s : Fds)
    → pos_ok p ≡ true
    → Held (some f) s
    → fput f (set_pos f p (count_to f ((s.file f).refcount + 1) s)) ≡ some (again f p s)
unfolding again fput count_to set_pos set_file
fput_shared f p s hp inv =
    let hv = inv.vnodes f (ground (arith, inv.counts f)) in
    let c₀ : (s.file f).refcount + 1 == 0 ≡ false = ground arith in
    let c₁ : (s.file f).refcount + 1 == 1 ≡ false = ground (arith, inv.counts f) in
    let z : (f == f) ≡ true = ground arith in
    let m : (s.file f).refcount + 1 - 1 ≡ (s.file f).refcount = omega arith in
    rw (z, inv.modes f, hp, c₀, c₁, hv, m) refl
