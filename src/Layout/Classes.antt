-- ===== src/Layout/Classes.antt =====
-- What win32/ tells `SetInformationJobObject` and `QueryInformationJobObject` of the structures that it
-- passes: the information class and the size.
use damon.Prelude.{
  List, [], ◌∷◌, ◌==◌, if◌then◌else◌, ℕ, ◌≡◌, ◌↔◌, refl, Bool, true, false, ◌&&◌, ◌||◌, Option,
  none, some, ltb, leb, arith,
}
use damon.Job.Limits.{BasicInfo, ExtendedInfo}
use damon.Job.Kernel.{
  Payload, NetRateInfo, NotificationInfo, cpu_rate, cpu_rate_min_max, cpu_rate_nil,
}
use damon.Job.CpuRate.{CpuRateControlInformation, cpu_rate_payload, max_weight}
use damon.Job.InfoClass.{
  number, class_associate_completion_port_information, class_basic_and_io_accounting_information,
  class_basic_limit_information, class_cpu_rate_control_information,
  class_extended_limit_information, class_limit_violation_information,
  class_limit_violation_information2, class_net_rate_control_information,
  class_notification_limit_information2,
}
use damon.Layout.{size, round_up, align, width}
use damon.Layout.Structures.{
  a_associate_completion_port, a_basic_and_io_accounting_information, a_basic_limit_information,
  a_cpu_rate_control_information, a_cpu_rate_control_information_minmax, Structure,
  a_extended_limit_information, a_limit_violation_information, a_limit_violation_information_2,
  a_net_rate_control_information, a_notification_limit_information_2, associate_completion_port,
  basic_and_io_accounting_information, basic_limit_information, extended_limit_information,
  limit_violation_information, limit_violation_information_2, net_rate_control_information,
  notification_limit_information_2,
}
use damon.Layout.Documented.{c_type}

-- The calls about a job that pass a structure: the five setters, the completion port, and the queries.
pub data Request : Type 0 where
  set_basic : BasicInfo → Request
  set_extended : ExtendedInfo → Request
  set_cpu_rate : CpuRateControlInformation → Request
  set_net_rate : NetRateInfo → Request
  set_notification : NotificationInfo → Request
  set_completion_port : Request
  query_accounting : Request
  query_violation : Request
  query_violation_2 : Request

-- What a call is given: the number of a class, which structure the address is one of, if it is none that
-- is nil, and a size.
abbrev pub Told : Type 0
Told = ℕ × (Option Structure × ℕ)

-- The structure and the size of the CPU rates; the size is set on two of the branches only.
unfoldable pub cpu_rate_passed : Payload → Option Structure × ℕ
cpu_rate_passed (cpu_rate n i) = (some a_cpu_rate_control_information, n)
cpu_rate_passed (cpu_rate_min_max n i) = (some a_cpu_rate_control_information_minmax, n)
cpu_rate_passed (cpu_rate_nil n) = (none, n)
cpu_rate_passed p = (none, 0)

-- The class, the structure and its `unsafe.Sizeof`, as each call hands them over.
unfoldable pub told_basic : Told
unfolding number size round_up align width
told_basic = (
  number class_basic_limit_information,
  (some a_basic_limit_information, size basic_limit_information),
)

unfoldable pub told_extended : Told
unfolding number size round_up align width
told_extended = (
  number class_extended_limit_information,
  (some a_extended_limit_information, size extended_limit_information),
)

unfoldable pub told_net_rate : Told
unfolding number size round_up align width
told_net_rate = (
  number class_net_rate_control_information,
  (some a_net_rate_control_information, size net_rate_control_information),
)

unfoldable pub told_notification : Told
unfolding number size round_up align width
told_notification = (
  number class_notification_limit_information2,
  (some a_notification_limit_information_2, size notification_limit_information_2),
)

unfoldable pub told_completion_port : Told
unfolding number size round_up align width
told_completion_port = (
  number class_associate_completion_port_information,
  (some a_associate_completion_port, size associate_completion_port),
)

unfoldable pub told_accounting : Told
unfolding number size round_up align width
told_accounting = (
  number class_basic_and_io_accounting_information,
  (some a_basic_and_io_accounting_information, size basic_and_io_accounting_information),
)

unfoldable pub told_violation : Told
unfolding number size round_up align width
told_violation = (
  number class_limit_violation_information,
  (some a_limit_violation_information, size limit_violation_information),
)

unfoldable pub told_violation_2 : Told
unfolding number size round_up align width
told_violation_2 = (
  number class_limit_violation_information2,
  (some a_limit_violation_information_2, size limit_violation_information_2),
)

unfoldable pub told_cpu_rate : CpuRateControlInformation → Told
unfolding number cpu_rate_passed
told_cpu_rate i = (number class_cpu_rate_control_information, cpu_rate_passed (cpu_rate_payload i))

unfoldable pub told : Request → Told
unfolding told_cpu_rate told_basic told_extended told_net_rate told_notification
    told_completion_port told_accounting told_violation told_violation_2
told (set_basic b) = told_basic
told (set_extended b) = told_extended
told (set_net_rate n) = told_net_rate
told (set_notification n) = told_notification
told set_completion_port = told_completion_port
told query_accounting = told_accounting
told query_violation = told_violation
told query_violation_2 = told_violation_2
told (set_cpu_rate i) = told_cpu_rate i

abbrev first_of : ℕ → List (ℕ × Structure) → Option (Option Structure × ℕ)
first_of n [] = none
first_of n ((k, s) ∷ rest) = if n == k then some (some s, size (c_type s)) else first_of n rest

-- What Windows documents for a class, by its number: the structure, by the name that it has in Windows,
-- and the size of its C declaration.
pub documented : ℕ → Option (Option Structure × ℕ)
unfolding size round_up align width c_type
documented n = first_of n (
    (2, a_basic_limit_information)
    ∷ (7, a_associate_completion_port)
    ∷ (8, a_basic_and_io_accounting_information)
    ∷ (9, a_extended_limit_information)
    ∷ (13, a_limit_violation_information)
    ∷ (15, a_cpu_rate_control_information)
    ∷ (32, a_net_rate_control_information)
    ∷ (33, a_notification_limit_information_2)
    ∷ (34, a_limit_violation_information_2)
    ∷ [])

pub is_some : {A : Type 0} → Option A → Bool
is_some none = false
is_some (some a) = true

-- A CPU rate is given as a maximum or as a weight, not as a range.
pub rated : Request → Bool
unfolding is_some
rated (set_cpu_rate i) = is_some i.max || (ltb 0 i.weight && leb i.weight max_weight)
rated r = true

-- Every call about a job passes the structure, and tells the size, that Windows documents for the number of
-- the class that it names, on amd64; a call about CPU rates does so exactly when it is given a maximum rate,
-- or a weight from 1 to 9.
pub told-documented : (r : Request) → (documented (told r).0 ≡ some (told r).1) ↔ (rated r ≡ true)
unfolding told documented rated is_some cpu_rate_payload cpu_rate_passed number
told-documented (set_basic b) = (λ h. refl, λ h. refl)
told-documented (set_extended b) = (λ h. refl, λ h. refl)
told-documented (set_cpu_rate i) = ground arith
told-documented (set_net_rate n) = (λ h. refl, λ h. refl)
told-documented (set_notification n) = (λ h. refl, λ h. refl)
told-documented set_completion_port = (λ h. refl, λ h. refl)
told-documented query_accounting = (λ h. refl, λ h. refl)
told-documented query_violation = (λ h. refl, λ h. refl)
told-documented query_violation_2 = (λ h. refl, λ h. refl)
