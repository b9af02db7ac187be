-- ===== src/Strings.antt =====
-- kernel/util/string.c: the functions on strings that are written in C. A pointer is the memory from
-- it on, a list of bytes; `none` is an access past the end of that memory. A result of type signed
-- char is given as its byte.
pub mod Contents
pub mod Search
use abmp.Common.{
  ℕ, zero, suc, ◌+◌, ◌-◌, ◌%◌, Bool, true, false, not, ◌&&◌, ◌||◌, Option, none, some, List, [],
  ◌∷◌, ◌==◌, if◌then◌else◌, ◌>>=◌,
}

unfoldable pub strlen : List ℕ → Option ℕ
strlen [] = none
strlen (c ∷ s) = let rest = (strlen s >>= λ n. some (suc n)) in if c == 0 then some 0 else rest

unfoldable pub strnlen : List ℕ → ℕ → Option ℕ
strnlen s zero = some 0
strnlen [] (suc count) = none
strnlen (c ∷ s) (suc count) =
    let rest = (strnlen s count >>= λ n. some (suc n)) in if c == 0 then some 0 else rest

abbrev pub difference : ℕ → ℕ → ℕ
difference a b = (a + 256 - b) % 256

unfoldable pub strcmp : List ℕ → List ℕ → Option ℕ
strcmp [] ct = none
strcmp (a ∷ cs) [] = none
strcmp (a ∷ cs) (b ∷ ct) =
    let rest = strcmp cs ct in
    if not (difference a b == 0) || a == 0 then some (difference a b) else rest

unfoldable pub strncmp : List ℕ → List ℕ → ℕ → Option ℕ
strncmp cs ct zero = some 0
strncmp [] ct (suc count) = none
strncmp (a ∷ cs) [] (suc count) = none
strncmp (a ∷ cs) (b ∷ ct) (suc count) =
    let rest = strncmp cs ct count in
    if not (difference a b == 0) || a == 0 then some (difference a b) else rest

-- The memory of the destination after the copy.
unfoldable pub strcpy : List ℕ → List ℕ → Option (List ℕ)
strcpy [] src = none
strcpy (d ∷ dest) [] = none
strcpy (d ∷ dest) (c ∷ src) =
    let rest = (strcpy dest src >>= λ m. some (c ∷ m)) in if c == 0 then some (c ∷ dest) else rest

unfoldable pub strncpy : List ℕ → List ℕ → ℕ → Option (List ℕ)
strncpy dest src zero = some dest
strncpy [] src (suc count) = none
strncpy (d ∷ dest) [] (suc count) = none
strncpy (d ∷ dest) (c ∷ src) (suc count) =
    let rest = (strncpy dest src count >>= λ m. some (c ∷ m)) in
    if c == 0 then some (c ∷ dest) else rest

unfoldable pub strcat : List ℕ → List ℕ → Option (List ℕ)
unfolding strcpy
strcat [] src = none
strcat (d ∷ dest) src =
    let rest = (strcat dest src >>= λ m. some (d ∷ m)) in
    if d == 0 then strcpy (d ∷ dest) src else rest

abbrev pub later : Option ℕ → Option ℕ
later none = none
later (some i) = some (suc i)

-- The offset of the byte found; the inner `none` is NULL.
unfoldable pub strchr : List ℕ → ℕ → Option (Option ℕ)
strchr [] c = none
strchr (a ∷ s) c =
    let rest = (strchr s c >>= λ r. some (later r)) in
    if a == c then some (some 0) else if a == 0 then some none else rest

abbrev pub last_of : Bool → Option ℕ → Option ℕ
last_of here (some i) = some (suc i)
last_of true none = some 0
last_of false none = none

unfoldable pub strrchr : List ℕ → ℕ → Option (Option ℕ)
strrchr [] c = none
strrchr (a ∷ s) c =
    let rest = (strrchr s c >>= λ r. some (last_of (a == c) r)) in
    if a == 0 then some none else rest
