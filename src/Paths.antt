-- ===== src/Paths.antt =====
-- kernel/fs/namev.c: path names to vnodes. A vnode is a number; a path is its bytes, without the NUL,
-- and the address of the first, for the differences of pointers. What a file system does is the
-- record `Fs`. A count in `refs` is a vnode's references but for its resident pages. `none` is a
-- failed `KASSERT`, or a pointer read that is NULL or was never set.
pub mod Slashes
pub mod Resolve
pub mod Calls
pub mod Balance
pub mod Link
pub mod Shared
use abmp.Common.{
  ℕ, zero, suc, ◌+◌, ◌-◌, ◌%◌, ◌≡◌, ltb, Bool, true, false, not, ◌&&◌, ◌||◌, Option, none, some,
  List, [], ◌∷◌, ◌==◌, if◌then◌else◌, ◌>>=◌, ◌>>◌, kassert, length, u32,
}
pub use abmp.Files.{Ret, ok, err}

pub data Found : Type 0 where
  there missing : ℕ → Found

-- `S` is what the file systems keep.
pub record World (S : Type 0) : Type 0 where
  pub refs : ℕ → ℕ
  pub disk : S

-- Every count is the same, or so but for one more of `v`.
abbrev pub Same : {S : Type 0} → World S → World S → Type 0
Same w w' = (u : ℕ) → w'.refs u ≡ w.refs u

abbrev pub Plus : {S : Type 0} → ℕ → World S → World S → Type 0
Plus v w w' = (u : ℕ) → w'.refs u ≡ (if u == v then w.refs u + 1 else w.refs u)

-- The vnode operations that change a directory; `link` names the vnode to be linked.
pub data Op : Type 0 where
  mknod : ℕ → ℕ → Op
  mkdir rmdir unlink : Op
  link : ℕ → Op

abbrev pub Counted : {S : Type 0} → World S → Found × World S → Type 0
Counted w (there v, w') = Plus v w w'
Counted w (missing e, w') = Same w w'

-- `vn_mode`, and the `vn_ops` of each vnode with their documented effect on the counts.
pub record Fs (S : Type 0) : Type 0 where
  pub is_dir : ℕ → Bool
  pub can_lookup : ℕ → Bool
  pub supports : ℕ → Bool
  pub find : ℕ → List ℕ → ℕ → World S → Found × World S
  pub change : Op → ℕ → List ℕ → ℕ → World S → Ret × World S
  pub stat : ℕ → World S → Ret
  pub find_counts : (d : ℕ) (name : List ℕ) (len : ℕ) (w : World S) → Counted w (find d name len w)
  pub change_counts :
      (o : Op) (d : ℕ) (name : List ℕ) (len : ℕ) (w : World S) → Same w (change o d name len w).1
  pub dir_supports : (d : ℕ) → is_dir d ≡ true → supports d ≡ true

abbrev pub slash : ℕ
slash = 47

-- `strcmp(name, ".")` and `strcmp(name, "..")`
abbrev pub is_dot : List ℕ → Bool
is_dot (c ∷ []) = c == 46
is_dot _ = false

abbrev pub is_dot_dot : List ℕ → Bool
is_dot_dot (c ∷ d ∷ []) = c == 46 && d == 46
is_dot_dot _ = false

-- The bytes before the first slash.
unfoldable pub component : List ℕ → List ℕ
component [] = []
component (c ∷ s) = let rest = component s in if c == slash then [] else c ∷ rest

-- `strchr(s, '/')`: the string from the first slash on; `none` is NULL.
unfoldable pub from_slash : List ℕ → Option (List ℕ)
from_slash [] = none
from_slash (c ∷ s) = let rest = from_slash s in if c == slash then some (c ∷ s) else rest

-- `while (*child == '/') child++`
unfoldable pub skip_slashes : List ℕ → List ℕ
skip_slashes [] = []
skip_slashes (c ∷ s) = let rest = skip_slashes s in if c == slash then rest else c ∷ s

abbrev pub next_part : Option (List ℕ) → List ℕ
next_part none = []
next_part (some r) = skip_slashes r

abbrev pub starts_with_slash : List ℕ → Bool
starts_with_slash [] = false
starts_with_slash (c ∷ s) = c == slash

abbrev pub tail : List ℕ → List ℕ
tail [] = []
tail (c ∷ s) = s

-- What `dir_namev` returns: an error, or 0 with the directory, the name and its length.
pub data Resolved : Type 0 where
  fails : ℕ → Resolved
  at : ℕ → List ℕ → ℕ → Resolved

-- What `lookup` returns; with "." and ".." it succeeds and sets no result.
pub data Looked : Type 0 where
  result : Option ℕ → Looked
  no_result : ℕ → Looked

abbrev pub looked : Found → Looked
looked (there v) = result (some v)
looked (missing e) = no_result e

abbrev pub nothing_at_end : List ℕ → Bool
nothing_at_end [] = true
nothing_at_end (c ∷ s) = false

module _ {S : Type 0} where
  unfoldable pub set_ref : ℕ → ℕ → World S → World S
  set_ref v n w = record w { refs = λ u. if u == v then n else w.refs u }

  unfoldable pub vref : ℕ → World S → Option (World S)
  unfolding set_ref
  vref v w = kassert (ltb 0 (w.refs v)) >> some (set_ref v (w.refs v + 1) w)

  -- What becomes of a vnode without references is the file system's, and not seen here.
  unfoldable pub vput : ℕ → World S → Option (World S)
  unfolding set_ref
  vput v w = kassert (ltb 0 (w.refs v)) >> some (set_ref v (w.refs v - 1) w)

  -- A reference put down on the way out.
  abbrev pub put_and {ℓ} : {A : Type ℓ} → ℕ → A → World S → Option (A × World S)
  put_and v a w = vput v w >>= λ w'. some (a, w')

  -- On to the vnode that was looked up in `ptr`.
  abbrev pub enter :
      ℕ
      → (ℕ → World S → Option (Resolved × World S))
      → Looked × World S
      → Option (Resolved × World S)
  enter ptr k (result none, w) = none
  enter ptr k (result (some v), w) = vput ptr w >>= λ w'. k v w'
  enter ptr k (no_result e, w) = put_and ptr (fails e) w

module _ {S : Type 0} (fs : Fs S) where
  unfoldable pub lookup : ℕ → List ℕ → ℕ → World S → Looked × World S
  lookup d name len w =
      if not (fs.is_dir d) || not (fs.can_lookup d)
      then (no_result 20, w)
      else if is_dot name || is_dot_dot name
      then (result none, w)
      else (looked (fs.find d name len w).0, (fs.find d name len w).1)

  -- The loop of `dir_namev`, from the vnode `ptr` and the rest `s` of the path at the address `a`.
  -- With no slash left, `len` is the difference of NULL and a pointer, as an int.
  unfoldable pub walk : ℕ → ℕ → List ℕ → ℕ → World S → Option (Resolved × World S)
  unfolding lookup
  walk zero ptr s a w = none
  walk (suc fuel) ptr s a w =
      let child = next_part (from_slash s) in
      let next =
        enter ptr (λ v w'. walk fuel v child (a + (length s - length child)) w')
          (lookup ptr s (length (component s)) w) in
      if not (fs.is_dir ptr) then put_and ptr (fails 20) w else elim (from_slash s) [
        | none ↦
            if ltb 28 (u32 (4294967296 - a)) && ltb (u32 (4294967296 - a)) 2147483648
            then put_and ptr (fails 36) w
            else none
        | some r ↦
            if ltb 28 (length (component s))
            then put_and ptr (fails 36) w
            else if nothing_at_end (skip_slashes r)
            then some (at ptr s (length (component s)), w)
            else next
      ]

  -- The root's vnode and the one that a relative path starts at: the base, or `p_cwd`.
  module _ (root start : ℕ) where
    unfoldable pub dir_namev : List ℕ → ℕ → World S → Option (Resolved × World S)
    unfolding walk vref
    dir_namev path a w =
        if ltb 1024 (length path)
        then some (fails 36, w)
        else if nothing_at_end path
        then some (fails 22, w)
        else if starts_with_slash path
        then (vref root w >>= λ w'. walk (length path) root (tail path) (a + 1) w')
        else (vref start w >>= λ w'. walk (suc (length path)) start path a w')

    -- A result other than 0 of `dir_namev` leaves `*res_vnode` unset, and it is read next; with 0
    -- the call returns the directory.
    unfoldable pub open_namev : List ℕ → ℕ → World S → Option (ℕ × World S)
    unfolding dir_namev
    open_namev path a w = elim (dir_namev path a w) [
      | none ↦ none
      | some (fails e, w') ↦ none
      | some (at d name len, w') ↦ some (d, w')
    ]
