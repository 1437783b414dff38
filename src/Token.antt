-- ===== src/Token.antt =====
-- win32/tokens.go and win32/tokens_win32.go: restricted tokens and token information.
pub mod Kind
pub mod Laws
pub mod Handles
pub mod RunAs
use damon.Prelude.{
  ℕ, zero, suc, String, ◌=s◌, Bool, true, false, Option, none, some, List, [], ◌∷◌, ◌++◌, bit_or,
  ltb, if◌then◌else◌, Result, ok, err,
}

pub record TokenRestrictions : Type 0 where
  pub disable_max_privilege : Bool
  pub sandbox_inert : Bool
  pub lua_token : Bool
  pub write_restricted : Bool
  pub disable_sids : List String
  pub disable_perms : List String
  pub restrict_sids : List String

-- The groups of a token, by their lower-case account names; a later group of a name replaces an
-- earlier one, as in a Go map.
abbrev pub Groups : Type 0
Groups = List (String × ℕ)

unfoldable pub find_group : Groups → String → Option ℕ
find_group [] s = none
find_group ((name, sid) ∷ gs) s = if name =s s then some sid else find_group gs s

-- What `LookupAccount` says of a group of the token.
pub record Account : Type 0 where
  pub account_name : String
  pub domain : String
  pub is_group : Bool  -- a group, an alias or a well-known group

-- What is handed to `CreateRestrictedToken`.
pub record Request : Type 0 where
  pub flags : ℕ
  pub sids_to_disable : List ℕ
  pub privileges_to_delete : List ℕ
  pub sids_to_restrict : List ℕ

add_flag : Bool → ℕ → ℕ → ℕ
add_flag b flag v = if b then bit_or v flag else v

-- `to_lower` is `strings.ToLower`, `qualify` the name `domain\account`, `lookup_luid` the call
-- `LookupPrivilegeValue`.
module _ (to_lower : String → String) (qualify : String → String → String)
    (lookup_luid : String → Result ℕ ℕ) where
  account_key : Account → String
  account_key a =
      to_lower (if a.domain =s "" then a.account_name else qualify a.domain a.account_name)

  -- The loop over the token's groups: each with its SID and what is known of its account.
  unfoldable pub collect_groups : List (ℕ × Option Account) → Groups → Groups
  unfolding account_key
  collect_groups [] gs = gs
  collect_groups ((sid, none) ∷ rest) gs = collect_groups rest gs
  collect_groups ((sid, some a) ∷ rest) gs =
      collect_groups rest (if a.is_group then (account_key a, sid) ∷ gs else gs)

  -- The loop over names: those that are no group of the token are passed over.
  unfoldable pub find_sids : Groups → List String → List ℕ
  unfolding find_group
  find_sids gs [] = []
  find_sids gs (s ∷ ss) =
      let rest = find_sids gs ss in
      elim (find_group gs (to_lower s)) [ none ↦ rest | some sid ↦ sid ∷ rest ]

  unfoldable pub find_privileges : List String → Result ℕ (List ℕ)
  find_privileges [] = ok []
  find_privileges (p ∷ ps) =
      let rest = find_privileges ps in
      elim (lookup_luid p) [
        | err e ↦ err e
        | ok luid ↦ (elim rest [ err e ↦ err e | ok luids ↦ ok (luid ∷ luids) ])
      ]

  unfoldable pub restriction_flags : TokenRestrictions → ℕ
  unfolding add_flag
  restriction_flags r = add_flag r.write_restricted 0x8 (
      add_flag r.lua_token 0x4
        (add_flag r.sandbox_inert 0x2 (add_flag r.disable_max_privilege 0x1 0)))

  -- `createRestrictedToken`, up to its call of the kernel: the groups come from the token.
  unfoldable pub restriction_request :
      Result ℕ (List (ℕ × Option Account)) → TokenRestrictions → Result ℕ Request
  unfolding collect_groups find_sids find_privileges restriction_flags
  restriction_request (err e) r = err e
  restriction_request (ok groups) r =
      let gs : Groups = collect_groups groups [] in
      elim (find_privileges r.disable_perms) [
        | err e ↦ err e
        | ok luids ↦ ok (record {
          flags = restriction_flags r;
          sids_to_disable = find_sids gs r.disable_sids;
          privileges_to_delete = luids;
          sids_to_restrict = find_sids gs r.restrict_sids;
        })
      ]

-- What `Start` of container/container.go asks for.
unfoldable pub container_restrictions : TokenRestrictions
container_restrictions = record {
  disable_max_privilege = true;
  sandbox_inert = false;
  lua_token = true;
  write_restricted = false;
  disable_sids = "BUILTIN\\Administrator" ∷ [];
  disable_perms = [];
  restrict_sids = [];
}

-- How one call of `GetTokenInformation` is answered, by the length of the buffer that it is given.
pub data InfoAnswer : Type 0 where
  insufficient_buffer : InfoAnswer
  info_failed : ℕ → InfoAnswer
  info : List ℕ → InfoAnswer

-- The loop of `getTokenInformation`, with fuel: the buffer keeps its 4 bytes. `none` means that the
-- fuel ran out.
unfoldable pub get_token_information : ℕ → (ℕ → InfoAnswer) → Option (Result ℕ (List ℕ))
get_token_information zero call = none
get_token_information (suc fuel) call = elim (call 4) [
  | insufficient_buffer ↦ get_token_information fuel call
  | info_failed e ↦ some (err e)
  | info b ↦ some (ok b)
]
