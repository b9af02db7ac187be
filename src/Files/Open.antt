-- ===== src/Files/Open.antt =====
-- kernel/fs/open.c, do_open: the descriptors of kernel/fs/file.c with the path resolution of
-- kernel/fs/namev.c. `new` is the file that the slab hands out; with no memory for one the source
-- passes NULL to fput.
use abmp.Common.{
  ℕ, ◌%◌, Bool, ◌&&◌, ◌||◌, ltb, Option, none, some, List, ◌==◌, if◌then◌else◌, ◌>>=◌, length,
}
use abmp.Files.{File, Fds, Ret, ok, err, set_file, set_fd, fref, fput, get_empty_fd}
use abmp.Paths.{World, Fs, vput, open_namev}

-- The switch on `oflags`: O_WRONLY is 1, O_RDWR 2, O_CREAT 256, O_TRUNC 512 and O_APPEND 1024.
abbrev pub mode_of_flags : ℕ → Option ℕ
mode_of_flags oflags =
    if oflags == 0 || (oflags == 256 || oflags == 512)
    then some 1
    else if oflags == 1 || (oflags == 513 || oflags == 257)
    then some 2
    else if oflags == 2 || (oflags == 514 || oflags == 258)
    then some 3
    else if oflags == 1024
    then some 5
    else if oflags == 1025
    then some 6
    else if oflags == 1026
    then some 7
    else none

-- The request involves writing.
abbrev pub to_write : ℕ → Bool
to_write oflags = oflags % 4 == 1 || oflags % 4 == 2

abbrev pub zeroed : File
zeroed = record { pos = 0; mode = 0; refcount = 0; vnode = none }

-- `fget(-1)`
unfoldable pub fget_new : ℕ → Fds → Option Fds
fget_new new s = fref new (set_file new zeroed s)

module _ {S : Type 0} where
  unfoldable pub give_up : ℕ → ℕ → Fds → World S → Option (Ret × (Fds × World S))
  give_up new e s w = fput new s >>= λ s'. some (err e, (s', w))

  -- After the vnode has been found.
  unfoldable pub give_up_vnode : ℕ → ℕ → ℕ → Fds → World S → Option (Ret × (Fds × World S))
  give_up_vnode new e v s w = fput new s >>= λ s'. vput v w >>= λ w'. some (err e, (s', w'))

-- `no_device` tells of a special file whose device does not exist.
module _ {S : Type 0} (fs : Fs S) (no_device : ℕ → Bool) (root start : ℕ) where
  unfoldable pub open_vnode : ℕ → ℕ → ℕ → Fds → ℕ × World S → Option (Ret × (Fds × World S))
  unfolding give_up_vnode
  open_vnode new fd oflags s (v, w) =
      if fs.is_dir v && to_write oflags
      then give_up_vnode new 21 v s w
      else if no_device v
      then give_up_vnode new 6 v s w
      else some (
        ok fd,
        (set_fd fd (some new) (set_file new (record (s.file new) { vnode = some v }) s), w),
      )

  unfoldable pub open_mode :
      ℕ → ℕ → List ℕ → ℕ → ℕ → Fds → World S → Option ℕ → Option (Ret × (Fds × World S))
  unfolding give_up open_vnode
  open_mode new fd path a oflags s w none = give_up new 22 s w
  open_mode new fd path a oflags s w (some m) =
      open_namev fs root start path a w
      >>= open_vnode new fd oflags (set_file new (record (s.file new) { mode = m }) s)

  unfoldable pub open_fd :
      Option ℕ → List ℕ → ℕ → ℕ → Fds → World S → Option ℕ → Option (Ret × (Fds × World S))
  unfolding open_mode
  open_fd o path a oflags s w none = some (err 24, (s, w))
  open_fd none path a oflags s w (some fd) = none
  open_fd (some new) path a oflags s w (some fd) = fget_new new s >>= λ s'.
      if ltb 28 (length path)
      then give_up new 36 s' w
      else open_mode new fd path a oflags s' w (mode_of_flags oflags)

  unfoldable pub do_open :
      Option ℕ → List ℕ → ℕ → ℕ → Fds → World S → Option (Ret × (Fds × World S))
  unfolding open_fd
  do_open o path a oflags s w = open_fd o path a oflags s w (get_empty_fd s.fds)
