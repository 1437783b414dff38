-- ===== src/Token/Laws.antt =====
-- What a restriction asks for (win32/tokens.go, win32/tokens_win32.go).
use damon.Prelude.{
  ℕ, zero, suc, ◌≡◌, refl, String, Option, none, List, [], ◌∷◌, arith, Result, ok, All,
}
use damon.Prelude.Words.{has_flag}
use damon.Token.{
  TokenRestrictions, Groups, Account, Request, find_group, find_sids, collect_groups,
  restriction_request, container_restrictions, InfoAnswer, insufficient_buffer,
  get_token_information,
}

module _ (to_lower : String → String) (qualify : String → String → String)
    (lookup_luid : String → Result ℕ ℕ) where
  -- A request that is made asks for each of the four flags exactly as the restrictions say.
  pub restriction_request-flags :
      (groups : List (ℕ × Option Account)) (r : TokenRestrictions) (q : Request)
      → restriction_request to_lower qualify lookup_luid (ok groups) r ≡ ok q
      → (has_flag q.flags 0x1 ≡ r.disable_max_privilege)
        × (has_flag q.flags 0x2 ≡ r.sandbox_inert)
        × (has_flag q.flags 0x4 ≡ r.lua_token)
        × (has_flag q.flags 0x8 ≡ r.write_restricted)
  unfolding restriction_request
  restriction_request-flags groups r q h = ground arith

  find_sids-none :
      (gs : Groups) (ss : List String)
      → All (λ s. find_group gs (to_lower s) ≡ none) ss
      → find_sids to_lower qualify lookup_luid gs ss ≡ []
  unfolding find_sids
  find_sids-none gs [] h = refl
  find_sids-none gs (s ∷ ss) h = ground (arith, find_sids-none gs ss h.1)

  -- A container's restricted token drops all privileges and is a LUA token. If no group of the
  -- supervisor's token has the one name that is to be disabled, the request disables no group at all,
  -- and no error tells so.
  pub container_restrictions-request :
      (groups : List (ℕ × Option Account))
      → find_group
          (collect_groups to_lower qualify lookup_luid groups [])
          (to_lower "BUILTIN\\Administrator")
        ≡ none
      → restriction_request to_lower qualify lookup_luid (ok groups) container_restrictions
        ≡ ok (record {
          flags = 0x5;
          sids_to_disable = [];
          privileges_to_delete = [];
          sids_to_restrict = [];
        })
  unfolding restriction_request container_restrictions
  container_restrictions-request groups h = ground arith

-- Where the information does not fit 4 bytes, so that the kernel finds the buffer too small at that
-- length, the loop never ends: no number of rounds gives a result.
pub get_token_information-none :
    (call : ℕ → InfoAnswer) (fuel : ℕ)
    → call 4 ≡ insufficient_buffer
    → get_token_information fuel call ≡ none
unfolding get_token_information
get_token_information-none call zero h = refl
get_token_information-none call (suc fuel) h =
    ground (arith, get_token_information-none call fuel h)
