-- ===== src/Tests/RamfsTests.antt =====
-- Runs of the file system in memory (kernel/fs/ramfs).
use abmp.Common.{
  ℕ, ◌≡◌, refl, true, Option, none, some, List, [], ◌∷◌, arith, ◌==◌, if◌then◌else◌, replicate,
  length-replicate,
}
use abmp.Files.{Ret, ok}
use abmp.Paths.{Found}
use abmp.Ramfs.{
  data_type, dir_type, chr_type, Dirent, page, entries, Inode, Ramfs, no_entry, name_match,
}
use abmp.Ramfs.Calls.{
  dot, dot_dot, ramfs_create, ramfs_mknod, ramfs_mkdir, ramfs_link, ramfs_unlink, ramfs_rmdir,
}
use abmp.Ramfs.Data.{ramfs_write}
use abmp.Ramfs.RoundTrip.{IsFile, Wrote, write-read}
use abmp.Ramfs.Keeps.{IsDir}
use abmp.Ramfs.Places.{Named, Added, Made}
use abmp.Ramfs.Additions.{MadeDir, Linked, replicate-Unique, find_name-replicate, additions-Added}
use abmp.Ramfs.Counts.{Bound}
use abmp.Ramfs.Removals.{Removed, Outcome, unlink-Removed, rmdir-Outcome}

-- Inode 0 is the root, with the file 1 under "a" and the directory 2 under "b".
abbrev root_entries : List Dirent
root_entries =
    record { rd_ino = 0; rd_name = dot }
    ∷ record { rd_ino = 0; rd_name = dot_dot }
    ∷ record { rd_ino = 1; rd_name = 97 ∷ [] }
    ∷ record { rd_ino = 2; rd_name = 98 ∷ [] }
    ∷ replicate 124 no_entry

abbrev sub_entries : List Dirent
sub_entries =
    record { rd_ino = 2; rd_name = dot }
    ∷ record { rd_ino = 0; rd_name = dot_dot }
    ∷ replicate 126 no_entry

abbrev inode_of : ℕ → Option Inode
inode_of i =
    if i == 0
    then some
        (record { size = 128; ino = 0; mem = entries root_entries; kind = dir_type; linkcount = 2 })
    else if i == 1
    then some (record {
      size = 3;
      ino = 1;
      mem = page (replicate 4096 0);
      kind = data_type;
      linkcount = 2;
    })
    else if i == 2
    then some
        (record { size = 64; ino = 2; mem = entries sub_entries; kind = dir_type; linkcount = 1 })
    else none

abbrev inode_at : ℕ → Inode
inode_at i = elim (inode_of i) [
  | none ↦ record { size = 0; ino = i; mem = page []; kind = data_type; linkcount = 0 }
  | some n ↦ n
]

-- The vnodes of the root and of the file are in use.
abbrev pub mounted : Ramfs
mounted = record {
  inodes = inode_of;
  vnodes = λ i.
      if i == 0
      then record { refcount = 1; vn_len = 128; vn_mode = 512 }
      else if i == 1
      then record { refcount = 1; vn_len = 3; vn_mode = 2048 }
      else record { refcount = 0; vn_len = 0; vn_mode = 0 };
}

root-IsDir : IsDir 0 (inode_at 0) root_entries mounted
root-IsDir = record {
  inode = refl;
  memory = refl;
  unique = (
    (λ h. find_name-replicate dot 124 refl),
    (
      (λ h. find_name-replicate dot_dot 124 refl),
      (
        (λ h. find_name-replicate (97 ∷ []) 124 refl),
        ((λ h. find_name-replicate (98 ∷ []) 124 refl), replicate-Unique 124),
      ),
    ),
  );
}

-- The path "cd/", of which 2 bytes are the name.
abbrev new_name : List ℕ
new_name = 99 ∷ 100 ∷ 47 ∷ []

new_name-Named : Named new_name 2
new_name-Named = record { some_length = omega arith; short = omega arith; given = omega arith }

additions-Added_example :
    ((r : Found × Ramfs) × ((ramfs_create true true 0 new_name 2 mounted ≡ some r)
        × Added true true 0 root_entries (99 ∷ 100 ∷ []) mounted r))
    × (((r : Ret × Ramfs) × ((ramfs_mknod true true 0 new_name 2 256 5 mounted ≡ some r)
            × Made true true chr_type 0 root_entries (99 ∷ 100 ∷ []) mounted r))
        × (((r : Ret × Ramfs) × ((ramfs_mkdir true true 0 new_name 2 mounted ≡ some r)
                × MadeDir true true 0 root_entries (99 ∷ 100 ∷ []) mounted r))
            × ((r : Ret × Ramfs) × ((ramfs_link 1 0 new_name 2 mounted ≡ some r)
                  × Linked 1 0 root_entries (99 ∷ 100 ∷ []) mounted r))))
additions-Added_example =
    additions-Added true true 0 2 256 5 1 chr_type (inode_at 1) new_name (inode_at 0) root_entries
      mounted root-IsDir new_name-Named (find_name-replicate (99 ∷ 100 ∷ []) 124 refl) refl refl

file-Bound : Bound 1 (inode_at 1) mounted
file-Bound = record { inode = refl; number = refl; linked = omega arith; mode = λ h. refl }

sub-Bound : Bound 2 (inode_at 2) mounted
sub-Bound = record {
  inode = refl;
  number = refl;
  linked = omega arith;
  mode = λ h. absurd (omega arith);
}

unlink-Removed_example :
    (s' : Ramfs) × ((ramfs_unlink 0 (97 ∷ []) 1 mounted ≡ some (ok 0, s'))
      × Removed 0 1 root_entries (97 ∷ []) (inode_at 1) mounted s')
unlink-Removed_example =
    unlink-Removed 0 1 1 (97 ∷ []) (inode_at 0) (inode_at 1) root_entries mounted root-IsDir
      (omega arith) refl (omega arith) file-Bound refl

rmdir-Outcome_example :
    (r : Ret × Ramfs) × ((ramfs_rmdir 0 (98 ∷ []) 1 mounted ≡ some r)
      × Outcome 0 2 root_entries (98 ∷ []) (inode_at 2) (some sub_entries) mounted r)
unfolding name_match
rmdir-Outcome_example =
    rmdir-Outcome 0 2 1 (98 ∷ []) (inode_at 0) (inode_at 2) root_entries (some sub_entries) mounted
      root-IsDir (omega arith) refl refl refl (omega arith) sub-Bound (refl, refl)

inode_at-IsFile : IsFile 1 (inode_at 1) (replicate 4096 0) mounted
inode_at-IsFile = record {
  inode = refl;
  memory = refl;
  whole = length-replicate 4096 0;
  fits = omega arith;
  same_len = refl;
  regular = refl;
}

write-read_example :
    (s' : Ramfs) × ((ramfs_write 1 4095 (7 ∷ 8 ∷ []) 2 mounted ≡ some (1, s'))
      × Wrote 1 4095 (7 ∷ []) (inode_at 1) mounted s')
write-read_example =
    write-read 1 4095 2 (7 ∷ 8 ∷ []) (inode_at 1) (replicate 4096 0) mounted inode_at-IsFile
      (omega arith) (omega arith)
