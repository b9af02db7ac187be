-- ===== src/Ramfs/RoundTrip.antt =====
-- kernel/fs/ramfs/ramfs.c: what `ramfs_read` returns after `ramfs_write`.
use abmp.Common.{
  ℕ, ◌+◌, ◌-◌, ◌≤◌, ◌≡◌, ◌≢◌, refl, sym, ap, ◌∙◌, ◌⊎◌, inl, inr, ltb, true, false, some, List, ◌++◌,
  ◌==◌, length, length-append, take, drop, length-take, length-drop, drop-append, drop-drop,
  take-append, take-drop_before, arith,
}
use abmp.Ramfs.{page, Inode, Ramfs, set_inode, set_vnode}
use abmp.Ramfs.Data.{min, max, is_dir, writable, overwrite, ramfs_read, ramfs_write}

-- A file with its inode and its page.
pub record IsFile (file : ℕ) (n : Inode) (b : List ℕ) (s : Ramfs) : Type 0 where
  pub inode : s.inodes file ≡ some n
  pub memory : n.mem ≡ page b
  pub whole : length b ≡ 4096
  pub fits : n.size ≤ 4096
  pub same_len : (s.vnodes file).vn_len ≡ n.size
  pub regular : is_dir file s ≡ false

length-overwrite :
    (o : ℕ) (x b : List ℕ) → o + length x ≤ length b → length (overwrite o x b) ≡ length b
unfolding overwrite
length-overwrite o x b h =
    rw
      (
        length-append (take o b) (x ++ drop (o + length x) b),
        length-append x (drop (o + length x) b),
      )
      (omega (arith, length-take o b (omega arith), length-drop (o + length x) b h))

drop-overwrite :
    (o m : ℕ) (x b : List ℕ)
    → o ≤ length b
    → o ≤ m
    → drop m (overwrite o x b) ≡ drop (m - o) (x ++ drop (o + length x) b)
unfolding overwrite
drop-overwrite o m x b h g =
    let p = length-take o b h in
    drop-append (take o b) (x ++ drop (o + length x) b) m (omega arith)
    ∙ ap (λ k. drop (m - k) (x ++ drop (o + length x) b)) p

-- The bytes written, those before them and those after them.
overwrite-at :
    (o : ℕ) (x b : List ℕ) → o ≤ length b → take (length x) (drop o (overwrite o x b)) ≡ x
overwrite-at o x b h =
    let z : o - o ≡ 0 = omega arith in
    rw (drop-overwrite o o x b h (omega arith), z) (take-append x (drop (o + length x) b))

overwrite_after :
    (o m : ℕ) (x b : List ℕ) → o ≤ length b → o + length x ≤ m → drop m (overwrite o x b) ≡ drop m b
overwrite_after o m x b h g =
    drop-overwrite o m x b h (omega arith)
    ∙ (drop-append x (drop (o + length x) b) (m - o) (omega arith)
        ∙ drop-drop (o + length x) ((m - o) - length x) m b (omega arith))

overwrite_before :
    (o i k : ℕ) (x b : List ℕ)
    → o ≤ length b
    → i + k ≤ o
    → take k (drop i (overwrite o x b)) ≡ take k (drop i b)
unfolding overwrite
overwrite_before o i k x b h g = take-drop_before i k o b (x ++ drop (o + length x) b) g h

read_lem :
    (file o k : ℕ) (n : Inode) (b : List ℕ) (s : Ramfs)
    → IsFile file n b s
    → o + k ≤ n.size
    → ramfs_read file o k s ≡ some (take k (drop o b))
unfolding ramfs_read
read_lem file o k n b s f h =
    let e : min k (n.size - o) ≡ k = ground arith in rw (f.regular, f.inode, f.memory, e) refl

-- What a write of the bytes `x` at the offset `o` does to the file: the bytes are there, those that
-- the file had elsewhere are still there, and no other file changes.
pub record Wrote (file o : ℕ) (x : List ℕ) (n : Inode) (s s' : Ramfs) : Type 0 where
  pub new : ramfs_read file o (length x) s' ≡ some x
  pub old :
      (i k : ℕ)
      → i + k ≤ n.size
      → (i + k ≤ o) ⊎ (o + length x ≤ i)
      → ramfs_read file i k s' ≡ ramfs_read file i k s
  pub others : (g : ℕ) → g ≢ file → (s'.inodes g ≡ s.inodes g) × (s'.vnodes g ≡ s.vnodes g)

-- The inode and the state after a write.
unfoldable written : ℕ → List ℕ → Inode → List ℕ → Inode
unfolding overwrite
written o x n b = record n { mem = page (overwrite o x b); size = max n.size (o + length x) }

unfoldable after : ℕ → ℕ → List ℕ → Inode → List ℕ → Ramfs → Ramfs
unfolding set_inode set_vnode written
after file o x n b s =
    set_vnode file (record (s.vnodes file) { vn_len = max n.size (o + length x) })
      (set_inode file (some (written o x n b)) s)

after-IsFile :
    (file o : ℕ) (x : List ℕ) (n : Inode) (b : List ℕ) (s : Ramfs)
    → IsFile file n b s
    → o + length x ≤ 4096
    → IsFile file (written o x n b) (overwrite o x b) (after file o x n b s)
unfolding after written set_inode set_vnode
after-IsFile file o x n b s f h = record {
  inode = ground arith;
  memory = refl;
  whole = length-overwrite o x b (omega (arith, h, f.whole)) ∙ f.whole;
  fits = ground (arith, f.fits);
  same_len = ground arith;
  regular = ground (arith, f.regular);
}

written-size : (o : ℕ) (x : List ℕ) (n : Inode) (b : List ℕ) → o + length x ≤ (written o x n b).size
unfolding written
written-size o x n b = ground arith

written-size_old : (o : ℕ) (x : List ℕ) (n : Inode) (b : List ℕ) → n.size ≤ (written o x n b).size
unfolding written
written-size_old o x n b = ground arith

after-old :
    (file o i k : ℕ) (x : List ℕ) (n : Inode) (b : List ℕ) (s : Ramfs)
    → IsFile file n b s
    → o + length x ≤ 4096
    → i + k ≤ n.size
    → (i + k ≤ o) ⊎ (o + length x ≤ i)
    → ramfs_read file i k (after file o x n b s) ≡ ramfs_read file i k s
after-old file o i k x n b s f h p q =
    let u = written-size_old o x n b in
    let w : o ≤ length b = omega (arith, h, f.whole) in
    let z : take k (drop i (overwrite o x b)) ≡ take k (drop i b) = elim q [
      | inl l ↦ overwrite_before o i k x b w l
      | inr r ↦ ap (take k) (overwrite_after o i x b w r)
    ] in
    read_lem file i k (written o x n b) (overwrite o x b) (after file o x n b s)
      (after-IsFile file o x n b s f h) (omega arith)
    ∙ (ap some z ∙ sym (read_lem file i k n b s f p))

after_others :
    (file o : ℕ) (x : List ℕ) (n : Inode) (b : List ℕ) (s : Ramfs) (g : ℕ)
    → g ≢ file
    → ((after file o x n b s).inodes g ≡ s.inodes g)
      × ((after file o x n b s).vnodes g ≡ s.vnodes g)
unfolding after set_inode set_vnode
after_others file o x n b s g d =
    let p : (g == file) ≡ false = ground arith in (rw p refl, rw p refl)

after-Wrote :
    (file o : ℕ) (x : List ℕ) (n : Inode) (b : List ℕ) (s : Ramfs)
    → IsFile file n b s
    → o + length x ≤ 4096
    → Wrote file o x n s (after file o x n b s)
after-Wrote file o x n b s f h =
    let f' = after-IsFile file o x n b s f h in
    record {
      new =
          read_lem file o (length x) (written o x n b) (overwrite o x b) (after file o x n b s) f'
            (written-size o x n b)
          ∙ ap some (overwrite-at o x b (omega (arith, h, f.whole)));
      old = λ i k p q. after-old file o i k x n b s f h p q;
      others = λ g d. after_others file o x n b s g d;
    }

write_lem :
    (file offset count ret : ℕ) (buf : List ℕ) (n : Inode) (b : List ℕ) (s : Ramfs)
    → IsFile file n b s
    → offset ≤ 4096
    → writable offset count ≡ ret
    → length (take ret buf) ≡ ret
    → ramfs_write file offset buf count s ≡ some (ret, after file offset (take ret buf) n b s)
unfolding ramfs_write after written
write_lem file offset count ret buf n b s f h e l =
    let q : ((s.vnodes file).vn_len == n.size) ≡ true = ground (arith, f.same_len) in
    let p : ltb 4096 offset ≡ false = ground arith in
    rw (f.regular, f.inode, f.memory, p, q, e, l) refl

-- A write to a regular file at an offset in its page writes the bytes that the page has room for and
-- returns their number; reading them back gives them, what the file had before and after them
-- is unchanged, and so is every other file.
pub write-read :
    (file offset count : ℕ) (buf : List ℕ) (n : Inode) (b : List ℕ) (s : Ramfs)
    → IsFile file n b s
    → offset ≤ 4096
    → count ≤ length buf
    → (s' : Ramfs) × (((ramfs_write file offset buf count s ≡ some (writable offset count, s'))
        × Wrote file offset (take (writable offset count) buf) n s s'))
unfolding ramfs_write
write-read file offset count buf n b s f h g =
    let ret : ℕ = writable offset count in
    let l : length (take ret buf) ≡ ret = length-take ret buf (ground arith) in
    let r : offset + length (take ret buf) ≤ 4096 = ground (arith, l) in
    (
      after file offset (take ret buf) n b s,
      (
        write_lem file offset count ret buf n b s f h refl l,
        after-Wrote file offset (take ret buf) n b s f r,
      ),
    )
