-- ===== src/Resources.antt =====
-- `GetSystemResources` of win32/resources.go: a probe that runs once, and what later calls see of it.
pub mod Processor
use damon.Prelude.{ℕ, ◌≡◌, refl, Bool, true, false, List, [], ◌∷◌, arith, Result, ok, err}
use damon.Process.{Outcome, done, panic}

-- The three answers of the system, each of which may be an error.
pub record Probe : Type 0 where
  pub cores_answer : Result ℕ ℕ
  pub mhz_answer : Result ℕ ℕ
  pub memory_answer : Result ℕ (ℕ × ℕ)

-- `F` stands for float64: `of_ℕ` is the conversion, `kb` the division by 1024, and `total` the floor of
-- the product of cores and MHz.
module _ {F : Type 0} (of_ℕ : ℕ → F) (kb : F → F) (total : F → F → F) where
  pub record SystemResources : Type 0 where
    pub cpu_mhz_percore : F
    pub cpu_num_cores : ℕ
    pub cpu_total_ticks : F
    pub memory_total_physical_kb : F
    pub memory_total_virtual_kb : F

  unfoldable pub zero_resources : SystemResources
  zero_resources = record {
    cpu_mhz_percore = of_ℕ 0;
    cpu_num_cores = 0;
    cpu_total_ticks = of_ℕ 0;
    memory_total_physical_kb = of_ℕ 0;
    memory_total_virtual_kb = of_ℕ 0;
  }

  resources_of : ℕ → ℕ → ℕ × ℕ → SystemResources
  resources_of cores mhz (physical, virtual) = record {
    cpu_mhz_percore = of_ℕ mhz;
    cpu_num_cores = cores;
    cpu_total_ticks = total (of_ℕ cores) (of_ℕ mhz);
    memory_total_physical_kb = kb (of_ℕ physical);
    memory_total_virtual_kb = kb (of_ℕ virtual);
  }

  probe_memory : ℕ → ℕ → Result ℕ (ℕ × ℕ) → Result ℕ SystemResources
  unfolding resources_of
  probe_memory cores mhz (err e) = err e
  probe_memory cores mhz (ok m) = ok (resources_of cores mhz m)

  probe_mhz : ℕ → Result ℕ ℕ → Result ℕ (ℕ × ℕ) → Result ℕ SystemResources
  unfolding probe_memory
  probe_mhz cores (err e) m = err e
  probe_mhz cores (ok mhz) m = probe_memory cores mhz m

  -- The function that `onceInit.Do` is given.
  unfoldable pub probe : Probe → Result ℕ SystemResources
  unfolding probe_mhz
  probe p = elim p.cores_answer [
    | err e ↦ err e
    | ok cores ↦ probe_mhz cores p.mhz_answer p.memory_answer
  ]

  -- The package's variables: whether `onceInit` is done, and `systemResources`.
  pub record Cache : Type 0 where
    pub once_done : Bool
    pub resources : SystemResources

  first_call : Cache → Result ℕ SystemResources → Cache × Outcome SystemResources
  first_call c (err e) = (record c { once_done = true }, panic)
  first_call c (ok r) = (record { once_done = true; resources = r }, done r)

  call_if : Bool → Cache → Probe → Cache × Outcome SystemResources
  unfolding first_call probe
  call_if true c p = (c, done c.resources)
  call_if false c p = first_call c (probe p)

  -- One call, with what the system would answer to a probe; the error is a variable of the call.
  unfoldable pub get_system_resources : Cache → Probe → Cache × Outcome SystemResources
  unfolding call_if
  get_system_resources c p = call_if c.once_done c p

  -- The results of calls one after the other.
  unfoldable pub calls : Cache → List Probe → List (Outcome SystemResources)
  calls c [] = []
  calls c (p ∷ ps) = let (c', r) = get_system_resources c p in r ∷ calls c' ps

  unfoldable pub initial_cache : Cache
  unfolding zero_resources
  initial_cache = record { once_done = false; resources = zero_resources }

  abbrev pub all_are : SystemResources → List Probe → List (Outcome SystemResources)
  all_are r [] = []
  all_are r (p ∷ ps) = done r ∷ all_are r ps

  calls-done :
      (c : Cache) (ps : List Probe) → c.once_done ≡ true → calls c ps ≡ all_are c.resources ps
  unfolding calls get_system_resources
  calls-done c [] h = refl
  calls-done c (p ∷ ps) h = ground (arith, calls-done c ps h)

  -- The system is probed by the first call alone. If that probe succeeds, every call returns what it
  -- found; if it fails, the first call panics, and every later one returns zeros, whatever the system
  -- would answer by then.
  pub calls-probe :
      (p : Probe) (ps : List Probe)
      → calls initial_cache (p ∷ ps) ≡ elim (probe p) [
        | err e ↦ panic ∷ all_are zero_resources ps
        | ok r ↦ done r ∷ all_are r ps
      ]
  unfolding calls get_system_resources initial_cache
  calls-probe p ps = of_probe (probe p) refl
    where
      of_probe :
          (r : Result ℕ SystemResources)
          → probe p ≡ r
          → calls initial_cache (p ∷ ps)
            ≡ elim r [ err e ↦ panic ∷ all_are zero_resources ps | ok r ↦ done r ∷ all_are r ps ]
      of_probe (err e) h =
          rw h (rw (calls-done (record initial_cache { once_done = true }) ps refl) refl)
      of_probe (ok r) h =
          rw h (rw (calls-done (record { once_done = true; resources = r }) ps refl) refl)
