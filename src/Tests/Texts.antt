-- ===== src/Tests/Texts.antt =====
-- Runs of win32/string_utils.go and win32/userenv_win32.go.
use damon.Prelude.{ℕ, ◌≡◌, some, List, [], ◌∷◌, arith}
use damon.Text.Environment.{read_environment_block, block, read_environment_block-block}

abbrev units : List ℕ → List ℕ
units us = us

read_environment_block-block_example :
    read_environment_block units (block ((65 ∷ 61 ∷ []) ∷ (66 ∷ 61 ∷ []) ∷ []) (7 ∷ []))
    ≡ some ((65 ∷ 61 ∷ []) ∷ (66 ∷ 61 ∷ []) ∷ [])
read_environment_block-block_example =
    read_environment_block-block units (65 ∷ 61 ∷ []) ((66 ∷ 61 ∷ []) ∷ []) (7 ∷ [])
      ((omega arith, (omega arith, tt)), ((omega arith, (omega arith, tt)), tt))
