-- ===== src/Tests/Data.antt =====
-- Inputs that the tests share: a host, a configuration, an arithmetic and the answers of a kernel.
use damon.Prelude.{
  ℕ, ◌*◌, ◌/◌, ◌^◌, String, ◌<>◌, ◌=s◌, true, false, Option, none, some, Result, ok, if◌then◌else◌,
}
use damon.Prelude.Int.{ℤ, pos}
use damon.Host.{Host}
use damon.Config.{Config}
use damon.Job.Kernel.{Handle, Payload, CallResult}
use damon.Container.Start.{Answers}
use damon.Job.CpuRate
use damon.Metrics.Collector

abbrev environment : String → String → String → String
environment cpu mem s =
    if s =s "NOMAD_CPU_LIMIT" then cpu else if s =s "NOMAD_MEMORY_LIMIT" then mem else ""

abbrev integers : String → Option ℤ
integers s =
    if s =s "500"
    then some (pos 500)
    else if s =s "50"
    then some (pos 50)
    else if s =s "256"
    then some (pos 256)
    else none

abbrev same : String → String
same s = s

abbrev slashed : String → String → String
slashed a b = a <> ("/" <> b)

-- The host with these limits in Nomad's variables.
abbrev pub host : String → String → Host
host cpu mem = record {
  getenv = environment cpu mem;
  parse_int = integers;
  to_lower = same;
  to_upper = same;
  trim_space = same;
  join = slashed;
  getwd = some "/task";
}

-- Fixed-point numbers.
abbrev pub scale : ℕ
scale = 2 ^ 20

abbrev scaled_of : ℕ → ℕ
scaled_of n = n * scale

abbrev scaled_div : ℕ → ℕ → ℕ
scaled_div a b = a * scale / b

abbrev scaled_mul : ℕ → ℕ → ℕ
scaled_mul a b = a * b / scale

abbrev whole : ℕ → ℕ
whole a = a / scale

abbrev pub fixed : damon.Job.CpuRate.Float
fixed = record { F = ℕ; of_ℕ = scaled_of; div = scaled_div; mul = scaled_mul; to_uint = whole }

abbrev nano : ℕ → ℕ
nano n = n * scale / 1000000000

abbrev pub fixed_metrics : damon.Metrics.Collector.Float
fixed_metrics = record {
  F = ℕ;
  of_uint64 = scaled_of;
  of_int64 = scaled_of;
  seconds = nano;
  million = 1000000 * scale;
  div = scaled_div;
  mul = scaled_mul;
  to_uint64 = whole;
}

abbrev pub config : Config
config = record {
  enforce_cpu = true;
  enforce_memory = true;
  restricted_token = true;
  memory_mb_limit = pos 256;
  cpu_mhz_limit = pos 500;
  cpu_hard_cap = false;
}

abbrev accepted : Handle → Payload → CallResult
accepted h p = record { ret = 1; errno = 0 }

abbrev restricted_to : ℕ → Result ℕ ℕ
restricted_to t = ok 8

abbrev pub answers : Answers
answers = record {
  job = none;
  current_token = ok 7;
  restricted = restricted_to;
  started = ok 4242;
  opened = none;
  assigned = none;
  set_information = accepted;
  resumed = none;
}

-- Ticks of the whole machine.
abbrev pub ticks : ℕ
ticks = 8000 * scale
