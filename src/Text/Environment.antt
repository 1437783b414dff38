-- ===== src/Text/Environment.antt =====
-- `readEnvironmentBlock` of win32/userenv_win32.go.
use mathlib.Core.List.{append_assoc, append-nil}
use damon.Prelude.{
  ℕ, suc, ◌≡◌, ◌≢◌, ◌∙◌, refl, Option, none, some, List, [], ◌∷◌, ◌++◌, arith, map, ◌==◌,
  if◌then◌else◌, All,
}

-- The loop's variables.
pub record Reader : Type 0 where
  pub envs : List (List ℕ)
  pub nulls : ℕ
  pub env : List ℕ

-- One turn: the loop ends, or goes on with new variables. `decode` is `utf16.Decode` with the
-- conversion to a string.
module _ (decode : List ℕ → List ℕ) where
  append_unit : ℕ → Reader → Reader
  append_unit u r = record r { env = r.env ++ (u ∷ []); nulls = 0 }

  end_of_string : List ℕ → Reader → Option Reader
  unfolding append_unit
  end_of_string (u ∷ env) r =
      some (record { envs = r.envs ++ (decode (u ∷ env) ∷ []); nulls = suc r.nulls; env = [] })
  end_of_string [] r = if suc r.nulls == 2 then none else some (append_unit 0 r)

  turn : ℕ → Reader → Option Reader
  unfolding end_of_string append_unit
  turn u r = if u == 0 then end_of_string r.env r else some (append_unit u r)

  -- `none` is a read beyond the memory.
  read_block : Reader → List ℕ → Option (List (List ℕ))
  unfolding turn
  read_block r [] = none
  read_block r (u ∷ mem) = elim (turn u r) [ none ↦ some r.envs | some r' ↦ read_block r' mem ]

  unfoldable pub read_environment_block : List ℕ → Option (List (List ℕ))
  unfolding read_block
  read_environment_block mem = read_block (record { envs = []; nulls = 0; env = [] }) mem

  read_block-rest :
      (s : List ℕ) (e : ℕ) (env : List ℕ) (envs : List (List ℕ)) (rest : List ℕ)
      → All (λ u. u ≢ 0) s
      → read_block (record { envs = envs; nulls = 0; env = e ∷ env }) (s ++ (0 ∷ rest))
        ≡ read_block
            (record { envs = envs ++ (decode (e ∷ (env ++ s)) ∷ []); nulls = 1; env = [] })
            rest
  unfolding read_block
  read_block-rest [] e env envs rest h = rw append-nil refl
  read_block-rest (c ∷ s) e env envs rest h =
      ground
        (arith, read_block-rest s e (env ++ (c ∷ [])) envs rest h.1, append_assoc env (c ∷ []) s)

  read_block-string :
      (c : ℕ) (s : List ℕ) (envs : List (List ℕ)) (n : ℕ) (rest : List ℕ)
      → All (λ u. u ≢ 0) (c ∷ s)
      → read_block (record { envs = envs; nulls = n; env = [] }) (c ∷ (s ++ (0 ∷ rest)))
        ≡ read_block (record { envs = envs ++ (decode (c ∷ s) ∷ []); nulls = 1; env = [] }) rest
  unfolding read_block
  read_block-string c s envs n rest h = ground (arith, read_block-rest s c [] envs rest h.1)

-- A variable's text: not empty, and with no NUL.
abbrev pub IsEntry : List ℕ → Type 0
IsEntry [] = ⊥
IsEntry (c ∷ s) = All (λ u. u ≢ 0) (c ∷ s)

-- The block as the kernel lays it out: each string with its NUL, and a NUL at the end.
abbrev pub block : List (List ℕ) → List ℕ → List ℕ
block [] rest = 0 ∷ rest
block (s ∷ ss) rest = s ++ (0 ∷ block ss rest)

module _ (decode : List ℕ → List ℕ) where
  read_block-block :
      (ss : List (List ℕ)) (envs : List (List ℕ)) (rest : List ℕ)
      → All IsEntry ss
      → read_block decode (record { envs = envs; nulls = 1; env = [] }) (block ss rest)
        ≡ some (envs ++ map decode ss)
  unfolding read_block
  read_block-block [] envs rest h = rw append-nil refl
  read_block-block ([] ∷ ss) envs rest h = absurd h.0
  read_block-block ((c ∷ s) ∷ ss) envs rest h =
      read_block-string decode c s envs 1 (block ss rest) h.0
      ∙ (read_block-block ss (envs ++ (decode (c ∷ s) ∷ [])) rest h.1
          ∙ rw (append_assoc envs (decode (c ∷ s) ∷ []) (map decode ss)) refl)

  -- An environment of at least one variable is read whole and in order, whatever follows the block.
  pub read_environment_block-block :
      (s : List ℕ) (ss : List (List ℕ)) (rest : List ℕ)
      → All IsEntry (s ∷ ss)
      → read_environment_block decode (block (s ∷ ss) rest) ≡ some (map decode (s ∷ ss))
  unfolding read_environment_block
  read_environment_block-block [] ss rest h = absurd h.0
  read_environment_block-block (c ∷ s) ss rest h =
      read_block-string decode c s [] 0 (block ss rest) h.0
      ∙ read_block-block ss (decode (c ∷ s) ∷ []) rest h.1

  turn-keeps : (u : ℕ) (r r' : Reader) → r.envs ≢ [] → turn decode u r ≡ some r' → r'.envs ≢ []
  unfolding turn
  turn-keeps u r r' h e = ground arith

  read_block-keeps : (mem : List ℕ) (r : Reader) → r.envs ≢ [] → read_block decode r mem ≢ some []
  unfolding read_block
  read_block-keeps [] r h = ground arith
  read_block-keeps (u ∷ mem) r h = go (read_block-keeps mem) (turn decode u r) refl
    where
      go :
          ((r' : Reader) → r'.envs ≢ [] → read_block decode r' mem ≢ some [])
          → (t : Option Reader) → turn decode u r ≡ t
          → (elim t [ none ↦ some r.envs | some r' ↦ read_block decode r' mem ]) ≢ some []
      go rest none e = ground arith
      go rest (some r') e = rest r' (turn-keeps u r r' h e)

  -- An empty environment, two NULs, is never read as an empty one, whatever follows it in memory.
  pub read_environment_block-empty :
      (rest : List ℕ) → read_environment_block decode (0 ∷ 0 ∷ rest) ≢ some []
  unfolding read_environment_block
  read_environment_block-empty rest = read_block-keeps rest _ (λ e. cc)
