-- ===== src/Files.antt =====
-- kernel/fs/file.c, get_empty_fd of kernel/fs/open.c, and the calls of kernel/fs/vfs_syscall.c on open
-- descriptors. A file and a vnode are numbers. A descriptor is a natural number; a negative one
-- fails the same tests as one past the table. `none` is a `KASSERT` that fails or a write outside
-- the table.
pub mod Refs
pub mod Calls
pub mod Seek
pub mod Io
pub mod Ends
pub mod Transfer
pub mod Open
pub mod Fresh
pub mod Opened
use abmp.Common.{
  ℕ, zero, suc, ◌+◌, ◌-◌, ◌/◌, ◌%◌, ltb, Bool, true, false, not, ◌&&◌, ◌||◌, Option, none, some,
  List, [], ◌∷◌, ◌==◌, if◌then◌else◌, ◌>>=◌, ◌>>◌, kassert, set,
}

-- `file_t`
pub record File : Type 0 where
  pub pos : ℕ
  pub mode : ℕ
  pub refcount : ℕ
  pub vnode : Option ℕ

-- The descriptors of the current process, the files, and the vnodes handed to `vput` so far.
pub record Fds : Type 0 where
  pub file : ℕ → File
  pub fds : List (Option ℕ)
  pub puts : List ℕ

-- A result that is not negative, or a negated error number.
pub data Ret : Type 0 where
  ok err : ℕ → Ret

-- `p_files[fd]`, and NULL outside the table.
abbrev pub slot : List (Option ℕ) → ℕ → Option ℕ
slot [] fd = none
slot (o ∷ rest) zero = o
slot (o ∷ rest) (suc fd) = slot rest fd

abbrev pub is_some : Option ℕ → Bool
is_some none = false
is_some (some x) = true

unfoldable pub set_file : ℕ → File → Fds → Fds
set_file f v s = record s { file = λ g. if f == g then v else s.file g }

abbrev pub set_fd : ℕ → Option ℕ → Fds → Fds
set_fd fd o s = record s { fds = set s.fds fd o }

-- The file with another count.
unfoldable pub count_to : ℕ → ℕ → Fds → Fds
unfolding set_file
count_to f n s = set_file f (record (s.file f) { refcount = n }) s

-- An `off_t` of 32 bits, at least -1.
abbrev pub pos_ok : ℕ → Bool
pos_ok p = ltb p 2147483648 || p == 4294967295

unfoldable pub fref : ℕ → Fds → Option Fds
unfolding count_to
fref f s = do
  kassert (ltb (s.file f).mode 8)
  kassert (pos_ok (s.file f).pos)
  kassert ((s.file f).refcount == 0 || is_some (s.file f).vnode)
  some (count_to f ((s.file f).refcount + 1) s)

abbrev pub fref_open : Option ℕ → Fds → Option (Option ℕ × Fds)
unfolding fref
fref_open none s = some (none, s)
fref_open (some f) s = fref f s >>= λ s'. some (some f, s')

-- For a descriptor that is not -1.
unfoldable pub fget : ℕ → Fds → Option (Option ℕ × Fds)
unfolding fref_open
fget fd s = fref_open (slot s.fds fd) s

abbrev pub add_put : Option ℕ → Fds → Fds
add_put none s = s
add_put (some v) s = record s { puts = v ∷ s.puts }

unfoldable pub fput : ℕ → Fds → Option Fds
unfolding count_to
fput f s = do
  kassert (ltb (s.file f).mode 8)
  kassert (pos_ok (s.file f).pos)
  kassert (not ((s.file f).refcount == 0))
  kassert ((s.file f).refcount == 1 || is_some (s.file f).vnode)
  let s' = count_to f ((s.file f).refcount - 1) s
  some (if (s.file f).refcount == 1 then add_put (s.file f).vnode s' else s')

-- The first free entry; `none` is -EMFILE.
abbrev pub get_empty_fd : List (Option ℕ) → Option ℕ
get_empty_fd [] = none
get_empty_fd (none ∷ rest) = some zero
get_empty_fd (some f ∷ rest) = get_empty_fd rest >>= λ fd. some (suc fd)

close_open : ℕ → Option ℕ → Fds → Option (Ret × Fds)
unfolding fget fput
close_open fd none s = some (err 9, s)
close_open fd (some f) s = do
  (_, s₁) ← fget fd s
  s₂ ← fput f s₁
  s₃ ← fput f (set_fd fd none s₂)
  some (ok 0, s₃)

unfoldable pub do_close : ℕ → Fds → Option (Ret × Fds)
unfolding close_open
do_close fd s = close_open fd (slot s.fds fd) s

-- With the table full, the source writes to `p_files[-EMFILE]`.
share : Option ℕ → ℕ → Fds → Option (Ret × Fds)
unfolding fput
share none f s = none
share (some zero) f s = fput f s >>= λ s'. some (err 24, s')
share (some (suc fd)) f s = some (ok (suc fd), set_fd (suc fd) (some f) s)

dup_open : ℕ → Option ℕ → Fds → Option (Ret × Fds)
unfolding fget share
dup_open fd none s = some (err 9, s)
dup_open fd (some f) s = fget fd s >>= λ r. share (get_empty_fd s.fds) f r.1

unfoldable pub do_dup : ℕ → Fds → Option (Ret × Fds)
unfolding dup_open
do_dup fd s = dup_open fd (slot s.fds fd) s

-- `nfd` is free now.
move : ℕ → ℕ → Fds → Option (Ret × Fds)
unfolding fget
move ofd nfd s = do (f, s') ← fget ofd s; kassert (is_some f); some (ok nfd, set_fd nfd f s')

dup2_open : ℕ → ℕ → Option ℕ → Fds → Option (Ret × Fds)
unfolding do_close move
dup2_open ofd nfd none s = some (err 9, s)
dup2_open ofd nfd (some f) s =
    if not (ltb nfd 32)
    then some (err 9, s)
    else if ofd == nfd
    then some (ok nfd, s)
    else if is_some (slot s.fds nfd)
    then (do_close nfd s >>= λ r. move ofd nfd r.1)
    else move ofd nfd s

unfoldable pub do_dup2 : ℕ → ℕ → Fds → Option (Ret × Fds)
unfolding dup2_open
do_dup2 ofd nfd s = dup2_open ofd nfd (slot s.fds ofd) s
