-- ===== src/Files/Io.antt =====
-- kernel/fs/vfs_syscall.c: do_read, do_write and do_getdent, over the vnodes' own operations. The
-- bytes that they move have no part in what the calls decide.
use abmp.Common.{
  ℕ, zero, suc, ◌+◌, ◌-◌, ◌/◌, ◌%◌, ◌≡◌, Bool, true, not, ◌&&◌, ◌||◌, leb, Option, none, some, ◌==◌,
  if◌then◌else◌, ◌>>=◌, ◌>>◌, kassert, u32,
}
use abmp.Files.{Fds, Ret, ok, err, slot, fget, fput}
use abmp.Files.Seek.{forward, set_pos, do_lseek}

-- The vnodes in a state `S` of the file systems: `vn_mode`, `vn_len` and the operations, of which one
-- may be missing. After a write of a regular file its position is within the file.
pub record Vnodes (S : Type 0) : Type 0 where
  pub is_dir : ℕ → Bool
  pub is_special : ℕ → Bool
  pub is_regular : ℕ → Bool
  pub vn_len : ℕ → S → ℕ
  pub can_read : ℕ → Bool
  pub can_write : ℕ → Bool
  pub can_readdir : ℕ → Bool
  pub read : ℕ → ℕ → ℕ → S → Ret × S
  pub write : ℕ → ℕ → ℕ → S → Ret × S
  pub readdir : ℕ → ℕ → S → Ret × S
  pub written :
      (v p n i : ℕ) (w w' : S)
      → can_write v ≡ true
      → write v p n w ≡ (ok i, w')
      → (is_special v || (is_regular v && leb p (vn_len v w'))) ≡ true

-- FMODE_READ, FMODE_WRITE and FMODE_APPEND
abbrev pub for_reading : ℕ → Bool
for_reading mode = mode % 2 == 1

abbrev pub for_writing : ℕ → Bool
for_writing mode = (mode / 2) % 2 == 1

abbrev pub for_append : ℕ → Bool
for_append mode = (mode / 4) % 2 == 1

module _ {S : Type 0} where
  -- The reference is put down on the way out.
  abbrev pub put_file : ℕ → Ret → Fds → S → Option (Ret × (Fds × S))
  put_file f r s w = fput f s >>= λ s'. some (r, (s', w))

  -- The end of `do_read` and of `do_write`.
  unfoldable pub advance : ℕ → Fds → Ret × S → Option (Ret × (Fds × S))
  advance f s (err e, w) = put_file f (err e) s w
  advance f s (ok i, w) = put_file f (ok i) (set_pos f (u32 ((s.file f).pos + i)) s) w

  -- `sizeof(dirent_t)` is 40. An error is added to the position too.
  unfoldable pub advance_dir : ℕ → Fds → Ret × S → Option (Ret × (Fds × S))
  advance_dir f s (err e, w) =
      put_file f (err e) (set_pos f (u32 ((s.file f).pos + (4294967296 - e))) s) w
  advance_dir f s (ok zero, w) = put_file f (ok 0) (set_pos f (u32 ((s.file f).pos + 0)) s) w
  advance_dir f s (ok (suc i), w) =
      put_file f (ok 40) (set_pos f (u32 ((s.file f).pos + suc i)) s) w

module _ {S : Type 0} (vn : Vnodes S) where
  unfoldable pub read_vnode_of : ℕ → ℕ → Fds → S → Option ℕ → Option (Ret × (Fds × S))
  unfolding advance
  read_vnode_of f n s w none = none
  read_vnode_of f n s w (some v) =
      if vn.is_dir v
      then put_file f (err 9) s w
      else (kassert (vn.can_read v) >> advance f s (vn.read v (s.file f).pos n w))

  unfoldable pub read_file : ℕ → ℕ → Option ℕ → Fds → S → Option (Ret × (Fds × S))
  unfolding fget read_vnode_of
  read_file fd n none s w = some (err 9, (s, w))
  read_file fd n (some f) s w = fget fd s >>= λ r.
      if for_reading (r.1.file f).mode
      then read_vnode_of f n r.1 w (r.1.file f).vnode
      else put_file f (err 9) r.1 w

  unfoldable pub do_read : ℕ → ℕ → Fds → S → Option (Ret × (Fds × S))
  unfolding read_file
  do_read fd n s w = read_file fd n (slot s.fds fd) s w

  -- The `KASSERT` after a write that succeeds.
  unfoldable pub check_written : ℕ → ℕ → Ret × S → Option (Ret × S)
  check_written v p (err e, w) = some (err e, w)
  check_written v p (ok i, w) =
      kassert (vn.is_special v || (vn.is_regular v && leb p (vn.vn_len v w))) >> some (ok i, w)

  unfoldable pub write_vnode : ℕ → ℕ → Fds → S → Option ℕ → Option (Ret × (Fds × S))
  unfolding advance check_written
  write_vnode f n s w none = none
  write_vnode f n s w (some v) = do
    kassert (vn.can_write v)
    r ← check_written v (s.file f).pos (vn.write v (s.file f).pos n w)
    advance f s r

  unfoldable pub write_after : ℕ → ℕ → S → Ret × Fds → Option (Ret × (Fds × S))
  unfolding write_vnode
  write_after f n w (err e, s) = put_file f (err e) s w
  write_after f n w (ok j, s) = write_vnode f n s w (s.file f).vnode

  unfoldable pub write_file : ℕ → ℕ → Option ℕ → Fds → S → Option (Ret × (Fds × S))
  unfolding fget write_after do_lseek
  write_file fd n none s w = some (err 9, (s, w))
  write_file fd n (some f) s w = fget fd s >>= λ r.
      if not (for_writing (r.1.file f).mode)
      then put_file f (err 9) r.1 w
      else if for_append (r.1.file f).mode
      then (do_lseek (λ v. vn.vn_len v w) fd (forward 0) 2 r.1 >>= write_after f n w)
      else write_vnode f n r.1 w (r.1.file f).vnode

  unfoldable pub do_write : ℕ → ℕ → Fds → S → Option (Ret × (Fds × S))
  unfolding write_file
  do_write fd n s w = write_file fd n (slot s.fds fd) s w

  unfoldable pub getdent_vnode : ℕ → Fds → S → Option ℕ → Option (Ret × (Fds × S))
  unfolding advance_dir
  getdent_vnode f s w none = none
  getdent_vnode f s w (some v) =
      if not (vn.is_dir v)
      then put_file f (err 20) s w
      else (kassert (vn.can_readdir v) >> advance_dir f s (vn.readdir v (s.file f).pos w))

  unfoldable pub getdent_file : ℕ → Option ℕ → Fds → S → Option (Ret × (Fds × S))
  unfolding fget getdent_vnode
  getdent_file fd none s w = some (err 9, (s, w))
  getdent_file fd (some f) s w = fget fd s >>= λ r. getdent_vnode f r.1 w (r.1.file f).vnode

  unfoldable pub do_getdent : ℕ → Fds → S → Option (Ret × (Fds × S))
  unfolding getdent_file
  do_getdent fd s w = getdent_file fd (slot s.fds fd) s w
