-- ===== src/Job/CpuRate.antt =====
-- CPU, network and I/O rate control of win32/job_object_info.go.
pub mod Laws
use damon.Prelude.{
  ℕ, ◌%◌, ◌^◌, Bool, true, false, ◌&&◌, ◌||◌, Option, none, some, bit_or, bit_and, ltb, leb, ◌==◌,
  if◌then◌else◌,
}
use damon.Prelude.Int.{ℤ, pos, ltb_ℤ, to_uint64}
use damon.Job.Flags.{
  cpu_rate_enable, cpu_rate_weight_based, cpu_rate_hard_cap, cpu_rate_min_max_rate, net_rate_enable,
  net_rate_max_bandwidth, net_rate_dscp_tag, io_rate_enable,
}
use damon.Job.Kernel.{
  CpuRateInfo, CpuRateMinMaxInfo, NetRateInfo, Payload, cpu_rate, cpu_rate_min_max, cpu_rate_nil,
}

abbrev pub max_cpu_rate : ℕ
max_cpu_rate = 10000

abbrev pub min_cpu_rate : ℕ
min_cpu_rate = 1

abbrev pub max_weight : ℕ
max_weight = 9

abbrev pub min_weight : ℕ
min_weight = 1

pub record CpuMaxRateInformation : Type 0 where
  pub rate : ℕ
  pub hard_cap : Bool

pub record CpuRateMinMaxInformation : Type 0 where
  pub max_rate : ℤ
  pub min_rate : ℤ

pub record CpuRateControlInformation : Type 0 where
  pub max : Option CpuMaxRateInformation
  pub weight : ℕ
  pub min_max : Option CpuRateMinMaxInformation
  pub notify : Bool

-- Both structures take 8 bytes.
abbrev pub size_of_info : ℕ
size_of_info = 8

min_max_payload : Option CpuRateMinMaxInformation → Payload
min_max_payload none = cpu_rate_nil 0
min_max_payload (some m) = cpu_rate_min_max 0 (record {
  control_flags = bit_or cpu_rate_enable cpu_rate_min_max_rate;
  min_rate = to_uint64 m.min_rate % 2 ^ 16;
  max_rate = to_uint64 m.max_rate % 2 ^ 16;
})

no_max_payload : CpuRateControlInformation → Payload
unfolding min_max_payload
no_max_payload i =
    if ltb 0 i.weight && leb i.weight max_weight
    then cpu_rate size_of_info (record {
      control_flags = bit_or cpu_rate_enable cpu_rate_weight_based;
      rate = i.weight % 2 ^ 32;
    })
    else min_max_payload i.min_max

max_payload : CpuRateControlInformation → Option CpuMaxRateInformation → Payload
unfolding no_max_payload
max_payload i none = no_max_payload i
max_payload i (some r) = cpu_rate size_of_info (record {
  control_flags = if r.hard_cap then bit_or cpu_rate_enable cpu_rate_hard_cap else cpu_rate_enable;
  rate = r.rate % 2 ^ 32;
})

-- What `(*CPURateControlInformation).SetJobInfo` hands to the kernel. `size` is set on the first two
-- branches only, and `Notify` is not read.
unfoldable pub cpu_rate_payload : CpuRateControlInformation → Payload
unfolding max_payload
cpu_rate_payload i = max_payload i i.max

pub record NetRateControlInformation : Type 0 where
  pub bandwidth : ℕ
  pub dscp : ℕ  -- a byte

net_bandwidth : ℕ → NetRateInfo → NetRateInfo
net_bandwidth b n =
    if ltb 0 b
    then (record n {
      max_bandwidth = b;
      control_flags = bit_or n.control_flags (bit_or net_rate_enable net_rate_max_bandwidth);
    })
    else n

net_dscp : ℕ → NetRateInfo → NetRateInfo
net_dscp d n =
    if ltb 0 d
    then (record n {
      dscp_tag = bit_and d 0x3f;
      control_flags = bit_or n.control_flags (bit_or net_rate_enable net_rate_dscp_tag);
    })
    else n

-- What `(*NetRateControlInformation).SetJobInfo` hands to the kernel.
unfoldable pub net_rate_info : NetRateControlInformation → NetRateInfo
unfolding net_bandwidth net_dscp
net_rate_info i =
    net_dscp i.dscp
      (net_bandwidth i.bandwidth (record { max_bandwidth = 0; control_flags = 0; dscp_tag = 0 }))

-- The floating-point numbers that the rates go through: `float64(n)`, `/`, `*` by a constant and
-- `uint(x)`, with an order. Nothing but what the laws below say is known of them.
pub record Float : Type 1 where
  pub F : Type 0
  pub of_ℕ : ℕ → F
  pub div : F → F → F
  pub mul : F → F → F
  pub to_uint : F → ℕ

module _ (L : Float) where
  open L use {F, of_ℕ, div, mul, to_uint}

  -- The part that `MHzToWeight` and `MHzToCPURate` share: a share of the machine's ticks, scaled and
  -- kept between two bounds.
  scaled : F → ℕ → F → ℕ
  scaled total mhz scale = to_uint (mul (div (of_ℕ mhz) total) scale)

  clamp : ℕ → ℕ → ℕ → ℕ
  clamp lo hi n = if ltb hi n then hi else if ltb n lo then lo else n

  -- `total` is `GetSystemResources().CPUTotalTicks`.
  unfoldable pub mhz_to_cpu_rate : F → ℕ → ℕ
  unfolding scaled clamp
  mhz_to_cpu_rate total mhz =
      if mhz == 0 then 0 else clamp min_cpu_rate max_cpu_rate (scaled total mhz (of_ℕ 10000))

  unfoldable pub mhz_to_weight : F → ℕ → ℕ
  unfolding scaled clamp
  mhz_to_weight total mhz =
      if mhz == 0 then 0 else clamp min_weight max_weight (scaled total mhz (of_ℕ max_weight))
