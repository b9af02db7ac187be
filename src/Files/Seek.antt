-- ===== src/Files/Seek.antt =====
-- kernel/fs/vfs_syscall.c, `do_lseek`. Positions, lengths and their sums are of 32 bits, and those from
-- 2^31 on are negative.
use abmp.Common.{
  ℕ, ◌+◌, ◌-◌, ◌≡◌, refl, ltb, Option, none, some, ◌==◌, if◌then◌else◌, ◌>>=◌, arith, true, u32,
}
use abmp.Files.{File, Fds, Ret, ok, err, slot, set_file, pos_ok, fget, fput}
use abmp.Files.Refs.{Held}

-- An offset of the type int, by its sign and size.
pub data Offset : Type 0 where
  forward back : ℕ → Offset

-- The sum with an offset, if it is not negative.
abbrev pub not_negative : ℕ → Option ℕ
not_negative p = if ltb p 2147483648 then some p else none

abbrev pub shift : ℕ → Offset → Option ℕ
shift p (forward n) = not_negative (u32 (p + n))
shift p (back n) = not_negative (u32 (p + (4294967296 - n)))

unfoldable pub set_pos : ℕ → ℕ → Fds → Fds
unfolding set_file
set_pos f i s = set_file f (record (s.file f) { pos = i }) s

pub set_pos-Held :
    (f i : ℕ) (s : Fds) → pos_ok i ≡ true → Held (some f) s → Held (some f) (set_pos f i s)
unfolding set_pos set_file
set_pos-Held f i s hi inv = record {
  table = inv.table;
  counts = λ g. ground (arith, inv.counts g, inv.counts f);
  modes = λ g. ground (arith, inv.modes g, inv.modes f);
  places = λ g. ground (arith, inv.places g, hi);
  vnodes = λ g hg. ground (arith, inv.vnodes g, inv.vnodes f);
}

pub set_pos-pos :
    (f i : ℕ) (s : Fds) → (((set_pos f i s).file f).pos ≡ i) × ((set_pos f i s).fds ≡ s.fds)
unfolding set_pos set_file
set_pos-pos f i s = (ground arith, refl)

-- The length of a vnode, by its number.
module _ (vn_len : ℕ → ℕ) where
  abbrev pub length_of : Option ℕ → ℕ
  length_of none = 0
  length_of (some v) = vn_len v

  -- SEEK_SET, SEEK_CUR and SEEK_END
  abbrev pub start_of : ℕ → File → ℕ
  start_of whence v = if whence == 0 then 0 else if whence == 1 then v.pos else length_of v.vnode

  unfoldable pub seek_to : ℕ → Option ℕ → Fds → Option (Ret × Fds)
  seek_to f none s = fput f s >>= λ s'. some (err 22, s')
  seek_to f (some i) s = fput f (set_pos f i s) >>= λ s'. some (ok i, s')

  unfoldable pub seek_open : ℕ → Option ℕ → Offset → ℕ → Fds → Option (Ret × Fds)
  unfolding fget seek_to
  seek_open fd none offset whence s = some (err 9, s)
  seek_open fd (some f) offset whence s =
      if ltb 2 whence
      then some (err 22, s)
      else (fget fd s >>= λ r. seek_to f (shift (start_of whence (r.1.file f)) offset) r.1)

  unfoldable pub do_lseek : ℕ → Offset → ℕ → Fds → Option (Ret × Fds)
  unfolding seek_open
  do_lseek fd offset whence s = seek_open fd (slot s.fds fd) offset whence s

  abbrev pub answer : Option ℕ → Ret
  answer none = err 22
  answer (some i) = ok i

  abbrev pub position : ℕ → Option ℕ → ℕ
  position old none = old
  position old (some i) = i
