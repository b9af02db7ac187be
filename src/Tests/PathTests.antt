-- ===== src/Tests/PathTests.antt =====
-- Runs of the path resolution and of the calls on paths (kernel/fs).
use abmp.Common.{ℕ, true, List, [], ◌∷◌, ◌==◌, if◌then◌else◌}
use abmp.Ramfs.{Ramfs}
use abmp.Ramfs.AsFs.{ramfs}
use abmp.Tests.RamfsTests.{mounted}
use abmp.Paths.{World, Fs}

-- The file system in memory of RamfsTests: "a" is a file and "b" an empty directory.
abbrev in_memory : Fs Ramfs
in_memory = ramfs true true mounted

abbrev start_world : World Ramfs
start_world = record { refs = λ v. 1; disk = mounted }

-- "/b/c/" and "/a/"
abbrev long_path : List ℕ
long_path = 47 ∷ 98 ∷ 47 ∷ 99 ∷ 47 ∷ []

abbrev short_path : List ℕ
short_path = 47 ∷ 97 ∷ 47 ∷ []

abbrev address : ℕ
address = 3221225472

abbrev at_root : World Ramfs
at_root = record { refs = λ v. if v == 0 then 2 else 1; disk = mounted }
