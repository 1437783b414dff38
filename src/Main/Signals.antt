-- ===== src/Main/Signals.antt =====
-- The goroutine of main.go that waits for a signal: `sigCh` has no buffer, so that a signal which comes
-- while nobody receives is lost.
use damon.Prelude.{◌+◌, ap, ◌∙◌, ℕ, suc, ◌≡◌, ◌⊎◌, refl, List, [], ◌∷◌, arith}

-- Where the goroutine is.
pub data Place : Type 0 where
  not_started receiving received finished : Place

-- What happens, in time.
pub data Happening : Type 0 where
  signal_comes goroutine_runs : Happening

pub record Signals : Type 0 where
  pub place : Place
  pub lost : ℕ
  pub closes : ℕ  -- how often `exitCh` is closed

abbrev pub waiting : Signals
waiting = record { place = not_started; lost = 0; closes = 0 }

-- A signal goes to the goroutine if that receives, and else nowhere. The goroutine's own steps are to
-- receive, and to close the channel after it has received.
pub data Step : Happening → Signals → Signals → Type 0 where
  starts :
      (s : Signals) → s.place ≡ not_started → Step goroutine_runs s (record s { place = receiving })
  delivers :
      (s : Signals) → s.place ≡ receiving → Step signal_comes s (record s { place = received })
  loses :
      (s : Signals)
      → (s.place ≡ not_started) ⊎ (s.place ≡ received) ⊎ (s.place ≡ finished)
      → Step signal_comes s (record s { lost = suc s.lost })
  closes_exit :
      (s : Signals)
      → s.place ≡ received
      → Step goroutine_runs s (record s { place = finished; closes = suc s.closes })

pub data Reach : Signals → List Happening → Signals → Type 0 where
  here : (s : Signals) → Reach s [] s
  then_ :
      {s t u : Signals} {h : Happening} {hs : List Happening}
      → Step h s t
      → Reach t hs u
      → Reach s (h ∷ hs) u

abbrev pub taken : Place → ℕ
taken not_started = 0
taken receiving = 0
taken received = 1
taken finished = 1

abbrev pub closed_at : Place → ℕ
closed_at not_started = 0
closed_at receiving = 0
closed_at received = 0
closed_at finished = 1

abbrev count : Happening → ℕ
count signal_comes = 1
count goroutine_runs = 0

abbrev pub signals : List Happening → ℕ
signals [] = 0
signals (h ∷ hs) = count h + signals hs

abbrev Kept : Signals → ℕ → Type 0
Kept s n = (s.closes ≡ closed_at s.place) × (s.lost + taken s.place ≡ n)

step-Kept : {s t : Signals} {h : Happening} (n : ℕ) → Step h s t → Kept s n → Kept t (n + count h)
step-Kept n (starts s e) (c, k) = (c ∙ rw e refl, omega (arith, k, ap taken e))
step-Kept n (delivers s e) (c, k) = (c ∙ rw e refl, omega (arith, k, ap taken e))
step-Kept n (loses s e) (c, k) = (c, omega (arith, k))
step-Kept n (closes_exit s e) (c, k) =
    (omega (arith, c, ap closed_at e), omega (arith, k, ap taken e))

reach-Kept :
    {s t : Signals} {hs : List Happening} (n : ℕ)
    → Reach s hs t
    → Kept s n
    → Kept t (n + signals hs)
reach-Kept n (here s) k = (k.0, omega (arith, k.1))
reach-Kept n (then_ {h = h} {hs = hs} p r) k =
    let q = reach-Kept (n + count h) r (step-Kept n p k) in (q.0, omega (arith, q.1))

-- In whatever order the goroutine runs and signals come, `exitCh` is closed once when the goroutine
-- has finished and never before or again, and of all signals at most one is taken, the others lost.
pub reach-signals :
    {s : Signals} {hs : List Happening}
    → Reach waiting hs s
    → (s.closes ≡ closed_at s.place) × (s.lost + taken s.place ≡ signals hs)
reach-signals r = let k = reach-Kept 0 r (refl, refl) in (k.0, omega (arith, k.1))
