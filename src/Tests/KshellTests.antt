-- ===== src/Tests/KshellTests.antt =====
-- Runs of the tokenizer (kernel/test/kshell).
use abmp.Common.{ℕ, refl, ◌≡◌, ◌≤◌, List, [], ◌∷◌}
use abmp.Kshell.{redirect_in, isspace, spaces, token_at, kshell_next_token}
use abmp.Kshell.Tokens.{AllOf, Finds, next_token-Finds}

-- " <ab"
abbrev input : List ℕ
input = 32 ∷ 60 ∷ 97 ∷ 98 ∷ []

-- The result is 1, which leads back to the redirection itself.
input_redirect : kshell_next_token input ≡ (record { kind = redirect_in; text = 1; textlen = 1 }, 1)
unfolding kshell_next_token spaces token_at
input_redirect = refl

next_token-Finds_example :
    (1 ≤ 4) × (AllOf isspace (32 ∷ []) × Finds redirect_in (60 ∷ 97 ∷ 98 ∷ []) 1 1 1)
unfolding kshell_next_token spaces token_at
next_token-Finds_example = next_token-Finds input
