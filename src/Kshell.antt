-- ===== src/Kshell.antt =====
-- kernel/test/kshell/tokenizer.c: the tokens of a command line, a list of characters without the NUL.
pub mod Tokens
use abmp.Common.{
  ℕ, zero, suc, ◌+◌, ◌≤◌, ◌<◌, ◌≡◌, refl, ap, inl, inr, Bool, true, false, not, ◌&&◌, ◌||◌, leb,
  List, [], ◌∷◌, ◌==◌, if◌then◌else◌, length, drop, All, take, arith, Bool-cases,
}

-- KTT_WORD and so on
pub data TokenType : Type 0 where
  word redirect_in redirect_out redirect_out_append eol : TokenType

-- `kt_text` is an index in the line.
pub record Token : Type 0 where
  pub kind : TokenType
  pub text : ℕ
  pub textlen : ℕ

-- The white space of kernel/include/ctype.h: tab to carriage return, and two kinds of blank.
abbrev pub isspace : ℕ → Bool
isspace c = (leb 9 c && leb c 13) || (c == 32 || c == 160)

-- A character of a word.
abbrev pub plain : ℕ → Bool
plain c = not (isspace c) && (not (c == 60) && not (c == 62))

unfoldable pub spaces : List ℕ → ℕ
spaces [] = 0
spaces (c ∷ s) = let rest = spaces s in if isspace c then suc rest else 0

unfoldable pub word_length : List ℕ → ℕ
word_length [] = 0
word_length (c ∷ s) = let rest = word_length s in if plain c then suc rest else 0

abbrev pub starts_with : ℕ → List ℕ → Bool
starts_with x [] = false
starts_with x (c ∷ s) = c == x

-- The token at the index `i`, where the rest of the line is given, and the result: a redirection sets
-- the index to its own length.
unfoldable pub token_at : ℕ → List ℕ → Token × ℕ
token_at i [] = (record { kind = eol; text = i; textlen = 0 }, 0)
token_at i (c ∷ s) =
    if c == 60
    then (record { kind = redirect_in; text = i; textlen = 1 }, 1)
    else if c == 62
    then if starts_with 62 s
      then (record { kind = redirect_out_append; text = i; textlen = 2 }, 2)
      else (record { kind = redirect_out; text = i; textlen = 1 }, 1)
    else (record { kind = word; text = i; textlen = word_length (c ∷ s) }, i + word_length (c ∷ s))

unfoldable pub kshell_next_token : List ℕ → Token × ℕ
kshell_next_token line = token_at (spaces line) (drop (spaces line) line)
