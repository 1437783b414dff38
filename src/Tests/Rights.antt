-- ===== src/Tests/Rights.antt =====
-- Runs of win32/lsa_win32.go and of the I/O rates of win32/job_object_info.go.
use damon.Prelude.{ℕ, ◌≡◌, refl, Bool, Option, none, some, List, [], ◌∷◌, ◌++◌, ok, arith, map}
use damon.Prelude.Int.{pos}
use damon.Process.{done}
use damon.Lsa.{
  LsaString, counted, to_lsa_strings, lsa_enumerate_account_rights, enumerate-to_lsa_strings,
}
use damon.Job.Flags.{io_rate_enable}
use damon.Job.IoRate.{IoRateControlInformation, IoRateInfo, io_rate_info}

-- Texts of characters that are their own units.
abbrev encoded : List ℕ → Option (List ℕ)
encoded s = some (s ++ (0 ∷ []))

abbrev decoded : List ℕ → List ℕ
decoded us = us

abbrev two : List (List ℕ × List ℕ)
two = ((83 ∷ 101 ∷ [], 83 ∷ 101 ∷ []) ∷ (84 ∷ [], 84 ∷ []) ∷ [])

strings_of_two :
    to_lsa_strings encoded decoded (map (λ (r : List ℕ × List ℕ). r.0) two)
    ≡ done (counted encoded decoded (83 ∷ 101 ∷ []) ∷ counted encoded decoded (84 ∷ []) ∷ [])
unfolding to_lsa_strings
strings_of_two = refl

enumerate-to_lsa_strings_example :
    lsa_enumerate_account_rights encoded decoded
      (ok (counted encoded decoded (83 ∷ 101 ∷ []) ∷ counted encoded decoded (84 ∷ []) ∷ []))
    ≡ ok (some ((83 ∷ 101 ∷ 0 ∷ []) ∷ (84 ∷ 0 ∷ []) ∷ []))
enumerate-to_lsa_strings_example =
    enumerate-to_lsa_strings encoded decoded two
      (counted encoded decoded (83 ∷ 101 ∷ []) ∷ counted encoded decoded (84 ∷ []) ∷ [])
      ((refl, omega arith), ((refl, omega arith), tt)) strings_of_two

abbrev one : List (List ℕ × List ℕ)
one = (84 ∷ [], 84 ∷ []) ∷ []

abbrev accepts : Bool → List LsaString → Option ℕ
accepts all ls = none

abbrev volume : IoRateControlInformation
volume = record {
  max_bandwidth = pos 1000;
  reserved_iops = pos 0;
  max_iops = pos 50;
  base_io_size = 4096;
  volume_name = 67 ∷ 58 ∷ [];
}

abbrev volume_info : IoRateInfo
volume_info = record {
  info_max_iops = pos 50;
  info_max_bandwidth = pos 1000;
  info_reservation_iops = pos 0;
  info_volume_name = some (67 ∷ 58 ∷ 0 ∷ []);
  info_base_io_size = 0;
  info_control_flags = io_rate_enable;
}

volume_is_set : io_rate_info encoded decoded volume ≡ done volume_info
unfolding io_rate_info
volume_is_set = refl
