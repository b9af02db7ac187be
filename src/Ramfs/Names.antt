-- ===== src/Ramfs/Names.antt =====
-- kernel/fs/ramfs/ramfs.c: a directory's entries as a map from names to inode numbers.
use abmp.Common.{
  ℕ, suc, ◌≤◌, ◌≡◌, refl, sym, ap, ◌∙◌, inl, inr, Bool, true, false, ◌&&◌, Option, none, some, List,
  [], ◌∷◌, ◌==◌, if◌then◌else◌, length, set, take, length-take, arith, Bool-cases, Option-cases,
}
use abmp.Ramfs.{Dirent, streq, name_match, find_entry, is_empty, free_entry, clear_entry}

pub streq_refl : (x : List ℕ) → streq x x ≡ true
streq_refl [] = refl
streq_refl (c ∷ x) = ground (arith, streq_refl x)

pub streq_sound : (x y : List ℕ) → streq x y ≡ true → x ≡ y
streq_sound [] [] h = refl
streq_sound [] (d ∷ y) h = cc
streq_sound (c ∷ x) [] h = cc
streq_sound (c ∷ x) (d ∷ y) h = elim (Bool-cases (c == d)) [
  | inl e ↦
      let p : c ≡ d = ground arith in
      let q : streq x y ≡ true = ground arith in rw p (ap (λ l. d ∷ l) (streq_sound x y q))
  | inr e ↦ absurd (ground arith)
]

streq_swap : (x y : List ℕ) → streq x y ≡ false → streq y x ≡ false
streq_swap x y h = elim (Bool-cases (streq y x)) [
  | inl w ↦ let q : streq x y ≡ true = ap (streq x) (streq_sound y x w) ∙ streq_refl x in cc
  | inr w ↦ w
]

and_false : (b : Bool) → b && false ≡ false
and_false true = refl
and_false false = refl

match-take :
    (f name : List ℕ) (len : ℕ)
    → len ≤ length name
    → name_match f name len ≡ streq f (take len name)
unfolding name_match
match-take f name len h = elim (Bool-cases (streq f (take len name))) [
  | inl e ↦
      let p : length f ≡ len =
        ap length (streq_sound f (take len name) e) ∙ length-take len name h in
      let q : (length f == len) ≡ true = ground arith in rw (e, q) refl
  | inr e ↦ rw e (and_false (length f == len))
]

-- The inode number under a name, and the entries without it.
abbrev pub find_name : List ℕ → List Dirent → Option ℕ
find_name x [] = none
find_name x (e ∷ es) =
    let rest = find_name x es in if streq e.rd_name x then some e.rd_ino else rest

abbrev pub clear_name : List ℕ → List Dirent → List Dirent
clear_name x [] = []
clear_name x (e ∷ es) =
    let rest = clear_name x es in
    if streq e.rd_name x then record e { rd_name = [] } ∷ es else e ∷ rest

pub find_entry-name :
    (name : List ℕ) (len : ℕ) (es : List Dirent)
    → len ≤ length name
    → find_entry name len es ≡ find_name (take len name) es
find_entry-name name len [] h = refl
find_entry-name name len (e ∷ es) h =
    rw (match-take e.rd_name name len h, find_entry-name name len es h) refl

pub clear_entry-name :
    (name : List ℕ) (len : ℕ) (es : List Dirent)
    → len ≤ length name
    → clear_entry name len es ≡ clear_name (take len name) es
clear_entry-name name len [] h = refl
clear_entry-name name len (e ∷ es) h =
    rw (match-take e.rd_name name len h, clear_entry-name name len es h) refl

-- No name stands twice.
abbrev pub Unique : List Dirent → Type 0
Unique [] = Unit
Unique (e ∷ es) = (is_empty e.rd_name ≡ false → find_name e.rd_name es ≡ none) × Unique es

empty-streq : (f x : List ℕ) → is_empty f ≡ true → is_empty x ≡ false → streq f x ≡ false
empty-streq [] (c ∷ x) h g = refl
empty-streq [] [] h g = cc
empty-streq (d ∷ f) x h g = cc

-- Where a name is not found, no entry has it.
find_name-none :
    (x : List ℕ) (e : Dirent) (es : List Dirent)
    → find_name x (e ∷ es) ≡ none
    → (streq e.rd_name x ≡ false) × (find_name x es ≡ none)
find_name-none x e es h = elim (Bool-cases (streq e.rd_name x)) [
  | inl p ↦ absurd (ground arith)
  | inr p ↦ (p, ground arith)
]

pub find_name-set :
    (x y : List ℕ) (ino i : ℕ) (es : List Dirent)
    → is_empty x ≡ false
    → free_entry es ≡ some i
    → find_name y es ≡ none
    → find_name x (set es i (record { rd_ino = ino; rd_name = y }))
      ≡ (if streq y x then some ino else find_name x es)
find_name-set x y ino i [] hx hf hn = cc
find_name-set x y ino i (e ∷ es) hx hf hn = elim (Bool-cases (is_empty e.rd_name)) [
  | inl p ↦ let q : i ≡ 0 = ground arith in let r = empty-streq e.rd_name x p hx in rw (q, r) refl
  | inr p ↦ elim (Option-cases (free_entry es)) [
    | inl z ↦ absurd (ground arith)
    | inr (j, z) ↦
        let q : i ≡ suc j = ground arith in
        let (m, k) = find_name-none y e es hn in
        let ih = find_name-set x y ino j es hx z k in
        elim (Bool-cases (streq y x)) [
          | inl w ↦
              let u : streq e.rd_name x ≡ false =
                ap (streq e.rd_name) (sym (streq_sound y x w)) ∙ m in
              rw (q, u, ih) refl
          | inr w ↦ rw (q, ih, w) refl
        ]
  ]
]

pub find_name-clear :
    (x y : List ℕ) (es : List Dirent)
    → is_empty x ≡ false
    → Unique es
    → find_name x (clear_name y es) ≡ (if streq y x then none else find_name x es)
find_name-clear x y [] hx u = elim (Bool-cases (streq y x)) [
  | inl w ↦ rw w refl
  | inr w ↦ rw w refl
]
find_name-clear x y (e ∷ es) hx u = elim (Bool-cases (streq e.rd_name y)) [
  | inl p ↦
      let q = streq_sound e.rd_name y p in
      let z = empty-streq [] x refl hx in
      elim (Bool-cases (streq y x)) [
        | inl w ↦
            let t : e.rd_name ≡ x = q ∙ streq_sound y x w in
            let g : find_name x es ≡ none =
              ap (λ v. find_name v es) (sym t) ∙ u.0 (ap is_empty t ∙ hx) in
            rw (p, z, w, g) refl
        | inr w ↦
            let v : streq e.rd_name x ≡ false = ap (λ v. streq v x) q ∙ w in rw (p, z, w, v) refl
      ]
  | inr p ↦
      let ih = find_name-clear x y es hx u.1 in
      elim (Bool-cases (streq y x)) [
        | inl w ↦
            let v : streq e.rd_name x ≡ false =
              ap (streq e.rd_name) (sym (streq_sound y x w)) ∙ p in
            rw (p, v, ih) refl
        | inr w ↦ rw (p, ih, w) refl
      ]
]

pub set-Unique :
    (y : List ℕ) (ino i : ℕ) (es : List Dirent)
    → free_entry es ≡ some i
    → find_name y es ≡ none
    → Unique es
    → Unique (set es i (record { rd_ino = ino; rd_name = y }))
set-Unique y ino i [] hf hn u = cc
set-Unique y ino i (e ∷ es) hf hn u =
    let (m, k) = find_name-none y e es hn in
    elim (Bool-cases (is_empty e.rd_name)) [
      | inl p ↦ let q : i ≡ 0 = ground arith in rw q ((λ w. k), u.1)
      | inr p ↦ elim (Option-cases (free_entry es)) [
        | inl z ↦ absurd (ground arith)
        | inr (j, z) ↦
            let q : i ≡ suc j = ground arith in
            rw q (
              (λ w.
                  let v = streq_swap e.rd_name y m in
                  find_name-set e.rd_name y ino j es w z k ∙ rw v (u.0 w)),
              set-Unique y ino j es z k u.1,
            )
      ]
    ]

pub clear-Unique : (y : List ℕ) (es : List Dirent) → Unique es → Unique (clear_name y es)
clear-Unique y [] u = u
clear-Unique y (e ∷ es) u = elim (Bool-cases (streq e.rd_name y)) [
  | inl p ↦ rw p ((λ w. absurd (ground arith)), u.1)
  | inr p ↦ rw p (
    (λ w. find_name-clear e.rd_name y es w u.1 ∙ rw (streq_swap e.rd_name y p) (u.0 w)),
    clear-Unique y es u.1,
  )
]
