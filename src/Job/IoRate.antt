-- ===== src/Job/IoRate.antt =====
-- I/O rate control of win32/job_object_info.go and win32/job_object_info_win32.go.
pub mod Query
use damon.Prelude.{
  ℕ, ◌≡◌, Bool, true, ◌||◌, Option, none, some, List, [], ◌∷◌, ◌++◌, arith, All, if◌then◌else◌, ◌≢◌,
}
use damon.Prelude.Int.{ℤ, pos, ltb_ℤ}
use damon.Prelude.Words.{has_flag}
use damon.Process.{Outcome, done, panic}
use damon.Text.Wide.{wchars, utf16_ptr_to_string, utf16_ptr_to_string_lem}
use damon.Job.Flags.{io_rate_enable}

pub record IoRateControlInformation : Type 0 where
  pub max_bandwidth : ℤ
  pub reserved_iops : ℤ
  pub max_iops : ℤ
  pub base_io_size : ℕ
  pub volume_name : List ℕ

-- _JOBOBJECT_IO_RATE_CONTROL_INFORMATION; its name is a pointer, by the memory behind it.
pub record IoRateInfo : Type 0 where
  pub info_max_iops : ℤ
  pub info_max_bandwidth : ℤ
  pub info_reservation_iops : ℤ
  pub info_volume_name : Option (List ℕ)
  pub info_base_io_size : ℕ
  pub info_control_flags : ℕ

-- The test of `SetJobInfo`.
abbrev pub limits_io : IoRateControlInformation → Bool
limits_io i =
    ltb_ℤ (pos 0) i.max_bandwidth || ltb_ℤ (pos 0) i.reserved_iops || ltb_ℤ (pos 0) i.max_iops

-- `encode` is `syscall.UTF16FromString`, and `decode` its inverse with the conversion to a string.
module _ (encode : List ℕ → Option (List ℕ)) (decode : List ℕ → List ℕ) where
  io_info : IoRateControlInformation → Option (List ℕ) → IoRateInfo
  io_info i name =
      if limits_io i
      then (record {
        info_max_iops = i.max_iops;
        info_max_bandwidth = i.max_bandwidth;
        info_reservation_iops = i.reserved_iops;
        info_volume_name = name;
        info_base_io_size = 0;
        info_control_flags = io_rate_enable;
      })
      else (record {
        info_max_iops = pos 0;
        info_max_bandwidth = pos 0;
        info_reservation_iops = pos 0;
        info_volume_name = name;
        info_base_io_size = 0;
        info_control_flags = 0;
      })

  with_name : IoRateControlInformation → Outcome (Option (List ℕ)) → Outcome IoRateInfo
  unfolding io_info
  with_name i panic = panic
  with_name i (done name) = done (io_info i name)

  -- What `(*IORateControlInformation).SetJobInfo` hands to the kernel.
  unfoldable pub io_rate_info : IoRateControlInformation → Outcome IoRateInfo
  unfolding with_name wchars
  io_rate_info i = with_name i (wchars encode i.volume_name)

  -- One block of `GetIORateControlInformations`; `none` is a read beyond the memory of its name.
  unfoldable pub information_of : IoRateInfo → Option IoRateControlInformation
  information_of b = elim (utf16_ptr_to_string decode b.info_volume_name) [
    | none ↦ none
    | some name ↦ some (record {
      max_bandwidth = b.info_max_bandwidth;
      reserved_iops = b.info_reservation_iops;
      max_iops = b.info_max_iops;
      base_io_size = b.info_base_io_size;
      volume_name = name;
    })
  ]

  -- Limits that are set and then read back from the structure that the kernel was handed come back as
  -- they were, with rate control enabled, but for the base size, which is always 0. At least one limit
  -- is positive, and the volume's name is not empty, and decodes to what was encoded.
  pub io_rate_info-information_of :
      (i : IoRateControlInformation) (c : ℕ) (name us : List ℕ) (b : IoRateInfo)
      → i.volume_name ≡ c ∷ name
      → encode (c ∷ name) ≡ some (us ++ (0 ∷ []))
      → All (λ u. u ≢ 0) us
      → decode us ≡ c ∷ name
      → limits_io i ≡ true
      → io_rate_info i ≡ done b
      → (has_flag b.info_control_flags io_rate_enable ≡ true)
        × (information_of b ≡ some (record i { base_io_size = 0 }))
  unfolding io_rate_info information_of
  io_rate_info-information_of i c name us b n e z d l h =
      ground (arith, utf16_ptr_to_string_lem decode us [] z)
