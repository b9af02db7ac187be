-- ===== src/Files/Transfer.antt =====
-- kernel/fs/vfs_syscall.c: the position and the counts after do_read, do_write and do_getdent.
use abmp.Common.{
  ℕ, ◌+◌, ◌≡◌, refl, ap, ◌∙◌, inl, inr, Bool, true, false, not, ◌&&◌, none, some, if◌then◌else◌,
  ◌>>=◌, arith, Bool-cases, ◌<◌, ltb, sym, u32,
}
use abmp.Files.{pos_ok, Fds, Ret, ok, err, slot, count_to}
use abmp.Files.Refs.{Held, count_to-Alike, fget_lem, fget-Held}
use abmp.Files.Seek.{forward, seek_open, seek_to, do_lseek}
use abmp.Files.Io.{
  Vnodes, for_reading, for_writing, for_append, put_file, read_vnode_of, read_file, do_read,
  check_written, write_vnode, write_after, write_file, do_write, getdent_vnode, getdent_file,
  do_getdent,
}
use abmp.Files.Ends.{
  Ends, advance-Ends, advance_dir-Ends, again, again-Held, again_same, count_to-mode, dirent_pos,
  dirent_result, fget_again, fput_shared, moved, put_file-Ends,
}

module _ {S : Type 0} (vn : Vnodes S) where
  -- What `do_read` asks of the vnode.
  abbrev pub reading : ℕ → ℕ → ℕ → ℕ → S → Ret × S
  reading mode v p n w =
      if for_reading mode && not (vn.is_dir v) then vn.read v p n w else (err 9, w)

  read_file-Ends :
      (f v n m p : ℕ) (s s₀ : Fds) (w : S)
      → Held (some f) s
      → s.fds ≡ s₀.fds
      → (s.file f).vnode ≡ some v
      → (s.file f).mode ≡ m
      → (s.file f).pos ≡ p
      → (vn.is_dir v ≡ false → vn.can_read v ≡ true)
      → pos_ok (moved p (vn.read v p n w).0) ≡ true
      → (let a = reading m v p n w in
          Ends f (moved p a.0) s₀ a (
            if for_reading (s.file f).mode
            then read_vnode_of vn f n s w (s.file f).vnode
            else put_file f (err 9) s w))
  unfolding read_vnode_of
  read_file-Ends f v n m p s s₀ w h t e em ep c l = elim (Bool-cases (for_reading m)) [
    | inr z ↦ rw (em, z) (put_file-Ends f p (err 9) s s₀ w h t ep)
    | inl z ↦ elim (Bool-cases (vn.is_dir v)) [
      | inl d ↦ rw (em, z, e, d) (put_file-Ends f p (err 9) s s₀ w h t ep)
      | inr d ↦ rw (em, z, e, d, c d, ep) (advance-Ends f p s s₀ (vn.read v p n w) h t ep l)
    ]
  ]

  pub read-Ends :
      (fd f v n : ℕ) (s : Fds) (w : S)
      → Held none s
      → slot s.fds fd ≡ some f
      → (s.file f).vnode ≡ some v
      → (vn.is_dir v ≡ false → vn.can_read v ≡ true)
      → pos_ok (moved (s.file f).pos (vn.read v (s.file f).pos n w).0) ≡ true
      → (let a = reading (s.file f).mode v (s.file f).pos n w in
          Ends f (moved (s.file f).pos a.0) s a (do_read vn fd n s w))
  unfolding do_read read_file
  read-Ends fd f v n s w inv e x c l =
      let s₁ : Fds = count_to f ((s.file f).refcount + 1) s in
      let al = count_to-Alike f ((s.file f).refcount + 1) s in
      let em = count_to-mode f f ((s.file f).refcount + 1) s in
      rw (e, fget_lem fd f s inv e)
        (read_file-Ends f v n (s.file f).mode (s.file f).pos s₁ s w (fget-Held fd f s inv e)
          al.table (al.vnodes f ∙ x) em (al.positions f) c l)

  -- What `do_getdent` asks of the vnode.
  abbrev pub listing : ℕ → ℕ → S → Ret × S
  listing v p w = if vn.is_dir v then vn.readdir v p w else (err 20, w)

  -- A vnode that is no directory leaves the position.
  abbrev pub listed : ℕ → ℕ → Ret → ℕ
  listed v p r = if vn.is_dir v then dirent_pos p r else p

  getdent_vnode-Ends :
      (f v p : ℕ) (s s₀ : Fds) (w : S)
      → Held (some f) s
      → s.fds ≡ s₀.fds
      → (s.file f).vnode ≡ some v
      → (s.file f).pos ≡ p
      → (vn.is_dir v ≡ true → vn.can_readdir v ≡ true)
      → pos_ok (dirent_pos p (vn.readdir v p w).0) ≡ true
      → (let a = listing v p w in
          Ends f
            (listed v p a.0)
            s₀
            (dirent_result a.0, a.1)
            (getdent_vnode vn f s w (s.file f).vnode))
  unfolding getdent_vnode
  getdent_vnode-Ends f v p s s₀ w h t e ep c l = elim (Bool-cases (vn.is_dir v)) [
    | inl d ↦ rw (e, d, c d, ep) (advance_dir-Ends f p s s₀ (vn.readdir v p w) h t ep l)
    | inr d ↦ rw (e, d) (put_file-Ends f p (err 20) s s₀ w h t ep)
  ]

  pub getdent-Ends :
      (fd f v : ℕ) (s : Fds) (w : S)
      → Held none s
      → slot s.fds fd ≡ some f
      → (s.file f).vnode ≡ some v
      → (vn.is_dir v ≡ true → vn.can_readdir v ≡ true)
      → pos_ok (dirent_pos (s.file f).pos (vn.readdir v (s.file f).pos w).0) ≡ true
      → (let a = listing v (s.file f).pos w in
          Ends f (listed v (s.file f).pos a.0) s (dirent_result a.0, a.1) (do_getdent vn fd s w))
  unfolding do_getdent getdent_file
  getdent-Ends fd f v s w inv e x c l =
      let s₁ : Fds = count_to f ((s.file f).refcount + 1) s in
      let al = count_to-Alike f ((s.file f).refcount + 1) s in
      rw (e, fget_lem fd f s inv e)
        (getdent_vnode-Ends f v (s.file f).pos s₁ s w (fget-Held fd f s inv e) al.table
          (al.vnodes f ∙ x) (al.positions f) c l)

  -- What `do_write` asks of the vnode: an appending file starts at the vnode's end.
  abbrev pub write_start : ℕ → ℕ → ℕ → S → ℕ
  write_start mode v p w = if for_writing mode && for_append mode then vn.vn_len v w else p

  abbrev pub writing : ℕ → ℕ → ℕ → ℕ → S → Ret × S
  writing mode v p n w =
      if for_writing mode then vn.write v (write_start mode v p w) n w else (err 9, w)

  check_written_lem :
      (v p n : ℕ) (w : S) (r : Ret × S)
      → vn.can_write v ≡ true
      → vn.write v p n w ≡ r
      → check_written vn v p r ≡ some r
  unfolding check_written
  check_written_lem v p n w (err e, w') c h = refl
  check_written_lem v p n w (ok i, w') c h = rw (vn.written v p n i w w' c h) refl

  write_vnode-Ends :
      (f v n p : ℕ) (s s₀ : Fds) (w : S)
      → Held (some f) s
      → s.fds ≡ s₀.fds
      → (s.file f).vnode ≡ some v
      → (s.file f).pos ≡ p
      → vn.can_write v ≡ true
      → pos_ok (moved p (vn.write v p n w).0) ≡ true
      → Ends f
          (moved p (vn.write v p n w).0)
          s₀
          (vn.write v p n w)
          (write_vnode vn f n s w (s.file f).vnode)
  unfolding write_vnode
  write_vnode-Ends f v n p s s₀ w h t e ep c l =
      rw (e, c, ep, check_written_lem v p n w (vn.write v p n w) c refl)
        (advance-Ends f p s s₀ (vn.write v p n w) h t ep l)

  seek_to_end :
      (f len : ℕ) (s : Fds) (w : S)
      → pos_ok len ≡ true
      → Held (some f) s
      → seek_to (λ u. vn.vn_len u w) f (some len) (count_to f ((s.file f).refcount + 1) s)
        ≡ some (ok len, again f len s)
  unfolding seek_to
  seek_to_end f len s w l h = rw (fput_shared f len s l h) refl

  -- `do_lseek` to the end, of a descriptor whose file another reference holds.
  append_lem :
      (fd f v : ℕ) (s : Fds) (w : S)
      → Held (some f) s
      → slot s.fds fd ≡ some f
      → (s.file f).vnode ≡ some v
      → vn.vn_len v w < 2147483648
      → do_lseek (λ u. vn.vn_len u w) fd (forward 0) 2 s
        ≡ some (ok (vn.vn_len v w), again f (vn.vn_len v w) s)
  unfolding do_lseek seek_open
  append_lem fd f v s w h e x l =
      let al = count_to-Alike f ((s.file f).refcount + 1) s in
      let y = al.vnodes f ∙ x in
      let z : u32 (vn.vn_len v w + 0) ≡ vn.vn_len v w = omega (arith, l) in
      let z' : ltb (vn.vn_len v w) 2147483648 ≡ true = ground (arith, l) in
      rw (e, fget_again fd f s h e, y, z, z')
        (seek_to_end f (vn.vn_len v w) s w (ground (arith, l)) h)

  write_file-Ends :
      (fd f v n m p : ℕ) (s s₀ : Fds) (w : S)
      → Held (some f) s
      → s.fds ≡ s₀.fds
      → slot s.fds fd ≡ some f
      → (s.file f).vnode ≡ some v
      → (s.file f).mode ≡ m
      → (s.file f).pos ≡ p
      → (for_writing m ≡ true → vn.can_write v ≡ true)
      → vn.vn_len v w < 2147483648
      → (let q = write_start m v p w in pos_ok (moved q (vn.write v q n w).0) ≡ true)
      → (let a = writing m v p n w in
          Ends f (moved (write_start m v p w) a.0) s₀ a (
            if not (for_writing (s.file f).mode)
            then put_file f (err 9) s w
            else if for_append (s.file f).mode
            then (do_lseek (λ u. vn.vn_len u w) fd (forward 0) 2 s >>= write_after vn f n w)
            else write_vnode vn f n s w (s.file f).vnode))
  unfolding write_after
  write_file-Ends fd f v n m p s s₀ w h t es e em ep c b l = elim (Bool-cases (for_writing m)) [
    | inr z ↦ rw (em, z) (put_file-Ends f p (err 9) s s₀ w h t ep)
    | inl z ↦ elim (Bool-cases (for_append m)) [
      | inr a ↦
          let q : write_start m v p w ≡ p = rw (z, a) refl in
          rw (em, z, a)
            (write_vnode-Ends f v n p s s₀ w h t e ep (c z)
              (ap (λ y. pos_ok (moved y (vn.write v y n w).0)) (sym q) ∙ l))
      | inl a ↦
          let (x, (y, u)) = again_same f (vn.vn_len v w) s in
          let q : write_start m v p w ≡ vn.vn_len v w = rw (z, a) refl in
          rw (em, z, a, append_lem fd f v s w h es e b)
            (write_vnode-Ends f v n (vn.vn_len v w) (again f (vn.vn_len v w) s) s₀ w
              (again-Held f (vn.vn_len v w) s (ground (arith, b)) h) (x ∙ t) (u ∙ e) y (c z)
              (ap (λ y. pos_ok (moved y (vn.write v y n w).0)) (sym q) ∙ l))
    ]
  ]

  pub write-Ends :
      (fd f v n : ℕ) (s : Fds) (w : S)
      → Held none s
      → slot s.fds fd ≡ some f
      → (s.file f).vnode ≡ some v
      → (for_writing (s.file f).mode ≡ true → vn.can_write v ≡ true)
      → vn.vn_len v w < 2147483648
      → (let q = write_start (s.file f).mode v (s.file f).pos w in
          pos_ok (moved q (vn.write v q n w).0) ≡ true)
      → (let a = writing (s.file f).mode v (s.file f).pos n w in
          Ends f
            (moved (write_start (s.file f).mode v (s.file f).pos w) a.0)
            s
            a
            (do_write vn fd n s w))
  unfolding do_write write_file
  write-Ends fd f v n s w inv e x c b l =
      let s₁ : Fds = count_to f ((s.file f).refcount + 1) s in
      let al = count_to-Alike f ((s.file f).refcount + 1) s in
      let em = count_to-mode f f ((s.file f).refcount + 1) s in
      rw (e, fget_lem fd f s inv e)
        (write_file-Ends fd f v n (s.file f).mode (s.file f).pos s₁ s w (fget-Held fd f s inv e)
          al.table (ap (λ l. slot l fd) al.table ∙ e) (al.vnodes f ∙ x) em (al.positions f) c b l)

  -- A directory is not open for writing and can be listed; another vnode can be read and written.
  abbrev pub usable : ℕ → ℕ → Bool
  usable mode v =
      if vn.is_dir v
      then vn.can_readdir v && not (for_writing mode)
      else vn.can_read v && vn.can_write v
