-- ===== src/Main/Journal/Laws.antt =====
-- What the lines that `main` itself writes tell of a run (main.go, log/log.go).
use damon.Prelude.{◌≡◌, refl, ap, ◌∙◌, String, Option, none, some, List, [], ◌∷◌, ◌++◌, All}
use damon.Host.{Host}
use damon.Config
use damon.Config.{
  listen_address, metrics_endpoint, listen_address, metrics_endpoint,
  load_container_config_from_environment,
}
use damon.Config.Fields.{Fields, nomad_log_fields}
use damon.Log.{Rotation, new_logger, log_config_from_environment}
use damon.Log.Writer.{
  with_stack, of_environment, written, GoError, Line, info_line, error_line, FieldMap, logln, error,
  with_fields, fresh, Logger,
}
use damon.Process.Wait.{WaitResult}
use damon.Container.Start.{Run}
use damon.Main.{WaitEnd}
use damon.Main.Journal.{
  identity, with_log, after_start, Described, described, main_lines, lines, exit_fields,
}

abbrev pub errors : List Line → List GoError
errors [] = []
errors (info_line chain msg ∷ ls) = errors ls
errors (error_line chain e msg ∷ ls) = e ∷ errors ls

abbrev pub given {ℓ} : {A : Type ℓ} → Option A → List A
given none = []
given (some a) = a ∷ []

abbrev pub FromChain : FieldMap → Line → Type 0
FromChain m (info_line [] msg) = ⊥
FromChain m (info_line (k ∷ ks) msg) = k ≡ m
FromChain m (error_line [] e msg) = ⊥
FromChain m (error_line (k ∷ ks) e msg) = k ≡ m

-- What `Start` fails with, and after it what the child ends with.
abbrev pub faults : Described → Run → Option WaitResult → List GoError
faults D (calls, some e) waited = D.of_start e ∷ []
faults D (calls, none) none = []
faults D (calls, none) (some r) = given (described D.of_wait r.error)

errors-error :
    (l : Logger) (o : Option GoError) (msg : String) (rest : List Line)
    → errors (error l o msg ++ rest) ≡ given o ++ errors rest
unfolding error
errors-error l none msg rest = refl
errors-error l (some e) msg rest = refl

given-none : {A : Type 0} (o : Option A) → given o ++ [] ≡ given o
given-none none = refl
given-none (some a) = refl

abbrev pub end_of : WaitResult → WaitEnd
end_of r = record {
  run_start = r.result_start;
  run_end = r.result_end;
  exit_code = r.exit_status;
  run_error = r.error;
}

with_stack-FromChain :
    (m : FieldMap) (ks : List FieldMap) (frames : Option (List String)) (e : GoError) (msg : String)
    → FromChain m (error_line (with_stack (record { chain = m ∷ ks }) frames).chain e msg)
unfolding with_stack with_fields
with_stack-FromChain m ks none e msg = refl
with_stack-FromChain m ks (some fs) e msg = refl

error-FromChain :
    (m : FieldMap) (ks : List FieldMap) (o : Option GoError) (msg : String) (rest : List Line)
    → All (FromChain m) rest
    → All (FromChain m) (error (record { chain = m ∷ ks }) o msg ++ rest)
unfolding error
error-FromChain m ks none msg rest h = h
error-FromChain m ks (some e) msg rest h = (with_stack-FromChain m ks e.frames e msg, h)

module _ (D : Described) (git_commit : String) (cmdline : List String) (fields : Fields) where
  after-errors :
      (l : Logger) (run : Run) (waited : Option WaitResult)
      → errors (after_start D git_commit cmdline l run waited) ≡ faults D run waited
  unfolding after_start logln exit_fields identity
  after-errors l (calls, some e) waited = given-none (some (D.of_start e))
  after-errors l (calls, none) none = refl
  after-errors l (calls, none) (some r) =
      let o = described D.of_wait r.error in
      errors-error (with_fields l (written (identity D git_commit cmdline))) o
        "process exited with an error"
        (logln (with_fields l (written (exit_fields D git_commit cmdline (end_of r))))
          "damon exiting")
      ∙ given-none o

  errors-lines :
      (ce : Option damon.Config.Error) (run : Run) (waited : Option WaitResult)
      → errors (lines D git_commit cmdline fields ce run waited)
        ≡ given (described D.of_config ce) ++ faults D run waited
  unfolding lines logln
  errors-lines ce run waited =
      let l = with_fields fresh (of_environment fields) in
      errors-error l (described D.of_config ce)
        "unable to load container configuration from environment variables"
        (after_start D git_commit cmdline l run waited)
      ∙ ap (λ (es : List GoError). given (described D.of_config ce) ++ es)
          (after-errors l run waited)

module _ (D : Described) (P : Host) (git_commit program : String)
    (order : List (String × String)) where
  -- Where there is a log, the errors of the lines that `main` itself writes to it are, each once and in this
  -- order, the error of the configuration, and then that of `Start`, or else that of `Process.Wait`.
  pub errors-main_lines :
      (command : String) (args : List String) (run : Run) (waited : Option WaitResult)
      (r : Rotation)
      → new_logger P (log_config_from_environment P) ≡ some r
      → errors (main_lines D P git_commit program order (command ∷ args) run waited)
        ≡ given (described D.of_config (load_container_config_from_environment P).1)
          ++ faults D run waited
  unfolding main_lines
  errors-main_lines command args run waited r h =
      ap
        (λ (o : Option Rotation).
          errors (with_log D P git_commit program order o (command ∷ args) run waited))
        h
      ∙ errors-lines D git_commit (program ∷ command ∷ args) (nomad_log_fields P order none).1
          (load_container_config_from_environment P).1 run waited

  after-FromChain :
      (m : FieldMap) (run : Run) (waited : Option WaitResult) (cmdline : List String)
      → All (FromChain m) (after_start D git_commit cmdline (record { chain = m ∷ [] }) run waited)
  unfolding after_start logln exit_fields identity with_fields
  after-FromChain m (calls, some e) waited cmdline =
      error-FromChain m [] (some (D.of_start e)) "damon startup error" [] tt
  after-FromChain m (calls, none) none cmdline = tt
  after-FromChain m (calls, none) (some r) cmdline =
      error-FromChain m (written (identity D git_commit cmdline) ∷ []) (described D.of_wait r.error)
        "process exited with an error"
        (info_line (m ∷ written (exit_fields D git_commit cmdline (end_of r)) ∷ []) "damon exiting"
          ∷ [])
        (refl, tt)

  with_log-FromChain :
      (o : Option Rotation) (args : List String) (run : Run) (waited : Option WaitResult)
      → All
          (FromChain (of_environment (nomad_log_fields P order none).1))
          (with_log D P git_commit program order o args run waited)
  unfolding with_log lines logln with_fields fresh
  with_log-FromChain none args run waited = tt
  with_log-FromChain (some r) args run waited =
      let m = of_environment (nomad_log_fields P order none).1 in
      (
        refl,
        error-FromChain m [] (described D.of_config (load_container_config_from_environment P).1)
            "unable to load container configuration from environment variables"
            (after_start D git_commit (program ∷ args) (record { chain = m ∷ [] }) run waited)
            (after-FromChain m run waited (program ∷ args)),
      )

  -- Every line that `main` itself writes carries the fields of Nomad's variables, before any other.
  pub main_lines-FromChain :
      (command : String) (args : List String) (run : Run) (waited : Option WaitResult)
      → All
          (FromChain (of_environment (nomad_log_fields P order none).1))
          (main_lines D P git_commit program order (command ∷ args) run waited)
  unfolding main_lines
  main_lines-FromChain command args run waited =
      with_log-FromChain (new_logger P (log_config_from_environment P)) (command ∷ args) run waited
