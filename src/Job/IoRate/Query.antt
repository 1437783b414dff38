-- ===== src/Job/IoRate/Query.antt =====
-- `queryIoRateControlInformationJobObject` of win32/job_object_info_win32.go and
-- `GetIORateControlInformations` of win32/job_object_info.go: blocks in the kernel's memory, which are
-- copied and then freed.
use damon.Prelude.{
  ℕ, ◌≡◌, ◌≢◌, refl, map, Option, none, some, List, [], ◌∷◌, ◌++◌, All, arith, Result, ok, err,
}
use damon.Process.{Outcome, done, panic}
use damon.Sys.{SysError, Nothing, Call, test_return_code_non_zero}
use damon.Sys.Wrappers.{free_memory_job_object}
use damon.Text.Wide.{wchars, utf16_ptr_to_string, utf16_ptr_to_string_lem}
use damon.Job.IoRate.{IoRateInfo, IoRateControlInformation, information_of}

-- What the function returns, and how many errors it logs. The result is `none` for a read beyond the
-- memory of a name.
pub record Queried {ℓ} (A : Type ℓ) : Type ℓ where
  pub result : Option (Outcome (Result SysError A))
  pub logged : ℕ

-- `LogError` of an error that may be nil.
logs : Result SysError Nothing → ℕ
logs (ok _) = 0
logs (err e) = 1

module _ (encode : List ℕ → Option (List ℕ)) (decode : List ℕ → List ℕ) where
  named : IoRateInfo → Outcome (Option (List ℕ)) → Outcome IoRateInfo
  named b panic = panic
  named b (done name) = done (record b { info_volume_name = name })

  -- `Text(UTF16PtrToString(info.VolumeName)).WChars()`
  copy_block : IoRateInfo → Option (Outcome IoRateInfo)
  unfolding named wchars utf16_ptr_to_string
  copy_block b = elim (utf16_ptr_to_string decode b.info_volume_name) [
    | none ↦ none
    | some name ↦ some (named b (wchars encode name))
  ]

  then_copies :
      Option (Outcome IoRateInfo)
      → Option (Outcome (List IoRateInfo))
      → Option (Outcome (List IoRateInfo))
  then_copies none rest = none
  then_copies (some panic) rest = some panic
  then_copies (some (done b)) none = none
  then_copies (some (done b)) (some panic) = some panic
  then_copies (some (done b)) (some (done bs)) = some (done (b ∷ bs))

  copy_blocks : List IoRateInfo → Option (Outcome (List IoRateInfo))
  unfolding copy_block then_copies
  copy_blocks [] = some (done [])
  copy_blocks (b ∷ bs) = then_copies (copy_block b) (copy_blocks bs)

  as_result :
      Option (Outcome (List IoRateInfo)) → Option (Outcome (Result SysError (List IoRateInfo)))
  as_result none = none
  as_result (some panic) = some panic
  as_result (some (done bs)) = some (done (ok bs))

  -- The blocks are freed on every way out behind the call.
  of_query : Result SysError (List IoRateInfo) → Call Nothing → Queried (List IoRateInfo)
  unfolding copy_blocks as_result logs free_memory_job_object
  of_query (err e) free = record { result = some (done (err e)); logged = 0 }
  of_query (ok bs) free = record {
    result = as_result (copy_blocks bs);
    logged = logs (free_memory_job_object free);
  }

  unfoldable pub query_io_rate_control_information_job_object :
      Call (List IoRateInfo) → Call Nothing → Queried (List IoRateInfo)
  unfolding of_query test_return_code_non_zero
  query_io_rate_control_information_job_object call free =
      of_query (test_return_code_non_zero call) free

  infos_of : List IoRateInfo → Option (List IoRateControlInformation)
  unfolding information_of
  infos_of [] = some []
  infos_of (b ∷ bs) =
      let rest = infos_of bs in
      elim (information_of encode decode b) [
        | none ↦ none
        | some i ↦ (elim rest [ none ↦ none | some is ↦ some (i ∷ is) ])
      ]

  read_infos :
      Option (Outcome (Result SysError (List IoRateInfo)))
      → Option (Outcome (Result SysError (List IoRateControlInformation)))
  unfolding infos_of
  read_infos none = none
  read_infos (some panic) = some panic
  read_infos (some (done (err e))) = some (done (err e))
  read_infos (some (done (ok bs))) = elim (infos_of bs) [
    | none ↦ none
    | some is ↦ some (done (ok is))
  ]

  unfoldable pub get_io_rate_control_informations :
      Call (List IoRateInfo) → Call Nothing → Queried (List IoRateControlInformation)
  unfolding query_io_rate_control_information_job_object read_infos
  get_io_rate_control_informations call free =
      let q = query_io_rate_control_information_job_object call free in
      record { result = read_infos q.result; logged = q.logged }

  -- A block whose name is a text that is encoded as it stands in the kernel's memory.
  abbrev pub IsNamed : IoRateInfo × IoRateControlInformation → Type 0
  IsNamed (b, i) =
      (us : List ℕ) × (rest : List ℕ) × (c : ℕ) × (n : List ℕ) × (b.info_volume_name
        ≡ some (us ++ (0 ∷ rest)))
      × All (λ u. u ≢ 0) us
      × (decode us ≡ c ∷ n)
      × (encode (c ∷ n) ≡ some (us ++ (0 ∷ [])))
      × (i ≡ record {
        max_bandwidth = b.info_max_bandwidth;
        reserved_iops = b.info_reservation_iops;
        max_iops = b.info_max_iops;
        base_io_size = b.info_base_io_size;
        volume_name = c ∷ n;
      })

  copied :
      (bs : List (IoRateInfo × IoRateControlInformation))
      → All IsNamed bs
      → (cs : List IoRateInfo) × (copy_blocks
            (map (λ (p : IoRateInfo × IoRateControlInformation). p.0) bs)
          ≡ some (done cs))
        × (infos_of cs ≡ some (map (λ (p : IoRateInfo × IoRateControlInformation). p.1) bs))
  unfolding copy_blocks infos_of
  copied [] h = ([], refl, refl)
  copied ((b, i) ∷ bs) ((us, rest, c, n, m, z, d, e, q), h) =
      let (cs, k, r) = copied bs h in
      (
        record b { info_volume_name = some (us ++ (0 ∷ [])) } ∷ cs,
        ground (arith, k, m, d, e, utf16_ptr_to_string_lem decode us rest z),
        ground (arith, r, d, q, utf16_ptr_to_string_lem decode us [] z),
      )

  -- Where the query succeeds, the blocks are read as they stand in the kernel's memory, each with its
  -- volume's name, although the names are read after that memory was freed; and an error is logged for
  -- the freeing, however it went.
  pub get_io_rate_control_informations-copies :
      (bs : List (IoRateInfo × IoRateControlInformation)) (code error : ℕ) (free : Call Nothing)
      → All IsNamed bs
      → code ≢ 0
      → let q =
          get_io_rate_control_informations
            (record {
              ret = code;
              last_error = error;
              out = map (λ (p : IoRateInfo × IoRateControlInformation). p.0) bs;
            })
            free in
        (q.result ≡ some (done (ok (map (λ (p : IoRateInfo × IoRateControlInformation). p.1) bs))))
        × (q.logged ≡ 1)
  unfolding get_io_rate_control_informations
  get_io_rate_control_informations-copies bs code error free h k =
      let (cs, c, r) = copied bs h in ground (arith, c, r)
