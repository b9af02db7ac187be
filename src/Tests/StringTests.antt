-- ===== src/Tests/StringTests.antt =====
-- Runs of the string functions (kernel/util/string.c) on "ab" and "ac".
use abmp.Common.{ℕ, ◌≡◌, List, [], ◌∷◌, arith}
use abmp.Strings.{strcmp, strncmp, strcpy, strncpy}
use abmp.Strings.Contents.{Text}
use abmp.Strings.Search.{strncmp-strncpy}

abbrev ab : List ℕ
ab = 97 ∷ 98 ∷ []

ab-Text : Text ab
ab-Text = ((omega arith, omega arith), ((omega arith, omega arith), tt))

strncmp-strncpy_example :
    (strncmp (97 ∷ 98 ∷ 0 ∷ []) (97 ∷ 99 ∷ 0 ∷ []) 5 ≡ strcmp (97 ∷ 98 ∷ 0 ∷ []) (97 ∷ 99 ∷ 0 ∷ []))
    × (strncpy (97 ∷ 99 ∷ 0 ∷ []) (97 ∷ 98 ∷ 0 ∷ []) 5
        ≡ strcpy (97 ∷ 99 ∷ 0 ∷ []) (97 ∷ 98 ∷ 0 ∷ []))
strncmp-strncpy_example = strncmp-strncpy ab [] (97 ∷ 99 ∷ 0 ∷ []) 5 ab-Text (omega arith)
