-- ===== src/Tests/FileTests.antt =====
-- Runs of the calls on file descriptors (kernel/fs).
use abmp.Common.{
  true, false, ltb, leb, ap, ◌+◌, ℕ, ◌≡◌, refl, Option, none, some, List, [], ◌∷◌, ◌++◌, arith,
  ◌==◌, if◌then◌else◌,
}
use abmp.Files.{Fds, ok, err, err, do_close}
use abmp.Files.Refs.{Held}
use abmp.Files.Io.{Vnodes}
use abmp.Files.Ends.{Ends}
use abmp.Files.Calls.{close-Held}

abbrev four : List (Option ℕ)
four = none ∷ none ∷ none ∷ none ∷ []

-- Descriptor 0 names file 4 or is free, descriptors 1 and 2 name file 3, and the others are free.
abbrev table : Option ℕ → List (Option ℕ)
table o =
    o ∷ some 3 ∷ some 3 ∷ none ∷ (four ++ (four ++ (four ++ (four ++ (four ++ (four ++ four))))))

abbrev opened : Fds
opened = record {
  file = λ f. record {
    pos = 0;
    mode = 1;
    refcount = if f == 3 then 2 else if f == 4 then 1 else 0;
    vnode = some f;
  };
  fds = table (some 4);
  puts = [];
}

opened-Held : Held none opened
opened-Held = record {
  table = refl;
  counts = λ f. ground arith;
  modes = λ f. refl;
  places = λ f. refl;
  vnodes = λ f h. refl;
}

close-Held_example :
    (s' : Fds) × ((do_close 0 opened ≡ some (ok 0, s'))
      × (Held none s' × ((s'.fds ≡ table none) × (s'.puts ≡ 4 ∷ []))))
close-Held_example = close-Held 0 4 opened opened-Held refl

-- Vnode 4 is a directory, every other vnode a regular file, of the length that is the state; all that
-- is asked for is moved.
abbrev end_of : ℕ → ℕ → ℕ
end_of p w = if ltb w p then p else w

end_of-leb : (p n w w' : ℕ) → end_of (p + n) w ≡ w' → leb p w' ≡ true
end_of-leb p n w w' h = ground (arith, h)

abbrev some_vnodes : Vnodes ℕ
some_vnodes = record {
  is_dir = λ v. v == 4;
  is_special = λ v. false;
  is_regular = λ v. true;
  vn_len = λ v w. w;
  can_read = λ v. true;
  can_write = λ v. true;
  can_readdir = λ v. true;
  read = λ v p n w. (ok n, w);
  write = λ v p n w. (ok n, end_of (p + n) w);
  readdir = λ v p w. (ok 64, w);
  written = λ v p n i w w' c h. end_of-leb p n w w' (ap (λ r. r.1) h);
}

-- The files are open for reading, writing and appending.
abbrev appending : Fds
appending = record opened {
  file = λ f. record {
    pos = 0;
    mode = 7;
    refcount = if f == 3 then 2 else if f == 4 then 1 else 0;
    vnode = some f;
  };
}
