-- ===== src/Job/CpuRate/Laws.antt =====
-- What a rate asks of the kernel (win32/job_object_info.go).
use damon.Prelude.{
  ℕ, ◌≤◌, ◌<◌, ◌^◌, ◌≡◌, Bool, true, false, none, some, arith, ltb, if◌then◌else◌, bit_and,
}
use damon.Prelude.Words.{has_flag}
use damon.Job.Flags.{
  cpu_rate_enable, cpu_rate_weight_based, cpu_rate_hard_cap, cpu_rate_min_max_rate, cpu_rate_notify,
  net_rate_max_bandwidth, net_rate_dscp_tag,
}
use damon.Job.Kernel.{Payload, cpu_rate, cpu_rate_min_max}
use damon.Job.CpuRate.{
  CpuRateControlInformation, cpu_rate_payload, NetRateControlInformation, net_rate_info, Float,
  mhz_to_cpu_rate, mhz_to_weight, max_cpu_rate, max_weight, CpuMaxRateInformation,
  CpuRateMinMaxInformation, size_of_info,
}

-- The size that the kernel is told, and the control flags of the structure.
abbrev pub size_of : Payload → ℕ
size_of (cpu_rate n i) = n
size_of (cpu_rate_min_max n i) = n
size_of _ = 0

abbrev pub flags_of : Payload → ℕ
flags_of (cpu_rate n i) = i.control_flags
flags_of (cpu_rate_min_max n i) = i.control_flags
flags_of _ = 0

-- A maximum rate goes before a weight and a range of rates: with one given, an 8-byte structure is
-- handed over that enables rate control, with the hard cap exactly as chosen and the rate as given,
-- and neither asks for a weight nor for a range.
pub cpu_rate_payload-max :
    (i : CpuRateControlInformation) (r : CpuMaxRateInformation)
    → i.max ≡ some r
    → r.rate < 2 ^ 32
    → let p = cpu_rate_payload i in
      (size_of p ≡ size_of_info)
      × (has_flag (flags_of p) cpu_rate_enable ≡ true)
      × (has_flag (flags_of p) cpu_rate_hard_cap ≡ r.hard_cap)
      × (has_flag (flags_of p) cpu_rate_weight_based ≡ false)
      × (has_flag (flags_of p) cpu_rate_min_max_rate ≡ false)
      × (p ≡ cpu_rate size_of_info (record { control_flags = flags_of p; rate = r.rate }))
unfolding cpu_rate_payload
cpu_rate_payload-max i r h bound = ground arith

-- Whatever is asked for, the kernel is never asked for notifications of the rate, and the choice of
-- `Notify` changes nothing.
pub cpu_rate_payload-notify :
    (i : CpuRateControlInformation) (b : Bool)
    → (has_flag (flags_of (cpu_rate_payload i)) cpu_rate_notify ≡ false)
      × (cpu_rate_payload (record i { notify = b }) ≡ cpu_rate_payload i)
unfolding cpu_rate_payload
cpu_rate_payload-notify i b = ground arith

-- A range of rates, with no maximum rate and no weight, is handed over with size 0.
pub cpu_rate_payload-min_max :
    (i : CpuRateControlInformation) (m : CpuRateMinMaxInformation)
    → i.max ≡ none
    → i.weight ≡ 0
    → i.min_max ≡ some m
    → (has_flag (flags_of (cpu_rate_payload i)) cpu_rate_min_max_rate ≡ true)
      × (size_of (cpu_rate_payload i) ≡ 0)
unfolding cpu_rate_payload
cpu_rate_payload-min_max i m h w e = ground arith

-- The rate of a machine's share is 0 for 0 MHz, and from 1 to 10000 otherwise; the weight is 0 for
-- 0 MHz, and from 1 to 9 otherwise. This holds for every arithmetic of the floating-point numbers.
pub mhz_bounds :
    (L : Float) (total : L.F) (mhz : ℕ)
    → 0 < mhz
    → (mhz_to_cpu_rate L total 0 ≡ 0)
      × (mhz_to_weight L total 0 ≡ 0)
      × (1 ≤ mhz_to_cpu_rate L total mhz)
      × (mhz_to_cpu_rate L total mhz ≤ max_cpu_rate)
      × (1 ≤ mhz_to_weight L total mhz)
      × (mhz_to_weight L total mhz ≤ max_weight)
unfolding mhz_to_cpu_rate mhz_to_weight
mhz_bounds L total mhz positive = ground arith

-- The order of the numbers that are in the range of `uint`, and the three operations keep it. This is
-- what rounding to nearest guarantees.
pub record IsMonotone (L : Float) : Type 1 where
  pub Le : L.F → L.F → Type 0
  pub of_ℕ_mono : (a b : ℕ) → a ≤ b → Le (L.of_ℕ a) (L.of_ℕ b)
  pub div_mono : (a b t : L.F) → Le a b → Le (L.div a t) (L.div b t)
  pub mul_mono : (a b s : L.F) → Le a b → Le (L.mul a s) (L.mul b s)
  pub InRange : L.F → Type 0
  pub to_uint_mono : (a b : L.F) → Le a b → InRange b → L.to_uint a ≤ L.to_uint b

-- A larger limit never gives a smaller rate, while the scaled share fits a `uint`.
pub mhz_to_cpu_rate_mono :
    (L : Float) (M : IsMonotone L) (total : L.F) (a b : ℕ)
    → a ≤ b
    → M.InRange (L.mul (L.div (L.of_ℕ b) total) (L.of_ℕ 10000))
    → mhz_to_cpu_rate L total a ≤ mhz_to_cpu_rate L total b
unfolding mhz_to_cpu_rate
mhz_to_cpu_rate_mono L M total a b h r =
    let q = M.div_mono _ _ total (M.of_ℕ_mono a b h) in
    let s = M.to_uint_mono _ _ (M.mul_mono _ _ (L.of_ℕ 10000) q) r in ground arith

-- A network limit enables rate control exactly when a bandwidth or a tag is given, with a flag for
-- each; the bandwidth is passed on as given, and the tag's low six bits.
pub net_rate_info-flags :
    (i : NetRateControlInformation)
    → let n = net_rate_info i in
      (has_flag n.control_flags net_rate_max_bandwidth ≡ ltb 0 i.bandwidth)
      × (has_flag n.control_flags net_rate_dscp_tag ≡ ltb 0 i.dscp)
      × (n.max_bandwidth ≡ i.bandwidth)
      × (n.dscp_tag ≡ (if ltb 0 i.dscp then bit_and i.dscp 0x3f else 0))
unfolding net_rate_info
net_rate_info-flags i = ground arith
