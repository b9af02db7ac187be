-- ===== src/Kshell/Tokens.antt =====
-- kernel/test/kshell/tokenizer.c: what kshell_next_token finds.
use abmp.Common.{
  ℕ, ◌+◌, ◌≤◌, ◌<◌, ◌≡◌, refl, ap, inl, inr, Bool, true, false, List, [], ◌∷◌, ◌==◌, length, drop,
  All, take, arith, Bool-cases,
}
use abmp.Kshell.{
  TokenType, word, redirect_in, redirect_out, redirect_out_append, eol, isspace, plain, spaces,
  word_length, starts_with, token_at, kshell_next_token,
}

abbrev pub begins : (ℕ → Bool) → List ℕ → Bool
begins p [] = false
begins p (c ∷ s) = p c

abbrev pub AllOf : (ℕ → Bool) → List ℕ → Type 0
AllOf p s = All (λ c. p c ≡ true) s

spaces_lem :
    (s : List ℕ)
    → (spaces s ≤ length s)
      × (AllOf isspace (take (spaces s) s) × (begins isspace (drop (spaces s) s) ≡ false))
unfolding spaces
spaces_lem [] = (omega arith, (tt, refl))
spaces_lem (c ∷ s) = elim (Bool-cases (isspace c)) [
  | inl e ↦ let (a, (b, d)) = spaces_lem s in rw e (omega arith, ((e, b), d))
  | inr e ↦ rw e (omega arith, (tt, e))
]

word_length_lem :
    (s : List ℕ)
    → (word_length s ≤ length s)
      × (AllOf plain (take (word_length s) s) × (begins plain (drop (word_length s) s) ≡ false))
unfolding word_length
word_length_lem [] = (omega arith, (tt, refl))
word_length_lem (c ∷ s) = elim (Bool-cases (plain c)) [
  | inl e ↦ let (a, (b, d)) = word_length_lem s in rw e (omega arith, ((e, b), d))
  | inr e ↦ rw e (omega arith, (tt, e))
]

word_length_positive : (c : ℕ) (s : List ℕ) → plain c ≡ true → 0 < word_length (c ∷ s)
unfolding word_length
word_length_positive c s e = rw e (omega arith)

-- The token of `n` characters at the start of `s`, which is at the index `i`, and the result `r`.
abbrev pub Finds : TokenType → List ℕ → ℕ → ℕ → ℕ → Type 0
Finds word s i n r =
    (0 < n)
    × ((n ≤ length s)
        × (AllOf plain (take n s) × ((begins plain (drop n s) ≡ false) × (r ≡ i + n))))
Finds redirect_in s i n r = (take n s ≡ 60 ∷ []) × ((n ≡ 1) × (r ≡ n))
Finds redirect_out s i n r =
    (take n s ≡ 62 ∷ []) × ((n ≡ 1) × ((starts_with 62 (drop 1 s) ≡ false) × (r ≡ n)))
Finds redirect_out_append s i n r = (take n s ≡ 62 ∷ 62 ∷ []) × ((n ≡ 2) × (r ≡ n))
Finds eol s i n r = (s ≡ []) × ((n ≡ 0) × (r ≡ 0))

token_at-Finds :
    (i : ℕ) (s : List ℕ)
    → begins isspace s ≡ false
    → (let t = token_at i s in (t.0.text ≡ i) × Finds t.0.kind s i t.0.textlen t.1)
unfolding token_at
token_at-Finds i [] h = (refl, (refl, (refl, refl)))
token_at-Finds i (c ∷ s) h = elim (Bool-cases (c == 60)) [
  | inl a ↦ rw a (refl, (one c 60 a, (refl, refl)))
  | inr a ↦ elim (Bool-cases (c == 62)) [
    | inl b ↦ elim (Bool-cases (starts_with 62 s)) [
      | inl d ↦ rw (a, b, d) (refl, (two c s b d, (refl, refl)))
      | inr d ↦ rw (a, b, d) (refl, (one c 62 b, (refl, (d, refl))))
    ]
    | inr b ↦
        let e : plain c ≡ true = rw (h, a, b) refl in
        let (x, (y, z)) = word_length_lem (c ∷ s) in
        rw (a, b) (refl, (word_length_positive c s e, (x, (y, (z, refl)))))
  ]
]
  where
    one : (c x : ℕ) → (c == x) ≡ true → ◌≡◌ {A = List ℕ} (c ∷ []) (x ∷ [])
    one c x e = let p : c ≡ x = ground arith in ap (λ k. k ∷ []) p

    two :
        (c : ℕ) (s : List ℕ)
        → (c == 62) ≡ true
        → starts_with 62 s ≡ true
        → ◌≡◌ {A = List ℕ} (c ∷ take 1 s) (62 ∷ 62 ∷ [])
    two c [] e d = cc
    two c (x ∷ s) e d =
        let p : c ≡ 62 = ground arith in let q : x ≡ 62 = ground arith in rw (p, q) refl

-- kshell_next_token skips white space and finds what comes next: the end of the line, a redirection, or
-- a word, all the characters up to white space, a redirection or the end. The token is in the line.
-- The result is 0 at the end, the index behind a word, but a redirection's own length, so that the
-- caller goes on from the wrong place where white space stands before it.
pub next_token-Finds :
    (line : List ℕ)
    → (let t = kshell_next_token line in
        (t.0.text ≤ length line)
        × (AllOf isspace (take t.0.text line)
            × Finds t.0.kind (drop t.0.text line) t.0.text t.0.textlen t.1))
unfolding kshell_next_token
next_token-Finds line =
    let (a, (b, d)) = spaces_lem line in
    let (p, f) = token_at-Finds (spaces line) (drop (spaces line) line) d in rw p (a, (b, f))
