-- ===== src/Network/Owners.antt =====
-- The module that owns a connection: `getOwnerModuleFromTcpEntry` and `getOwnerModuleFromTcp6Entry` of
-- win32/ip_helper_win32.go, and their calls in win32/ip_helper.go.
use damon.Prelude.{
  ℕ, ◌≡◌, ◌≢◌, refl, String, Bool, true, false, Option, none, some, List, [], ◌∷◌, arith, ◌==◌,
  if◌then◌else◌, Result, ok, err, All,
}
use damon.Process.{Outcome, done, panic}
use damon.Network.{TableAnswer, table, insufficient_buffer, call_failed}

abbrev pub Owner : Type 0
Owner = String × String

-- The loop, with and without a buffer: a call that succeeds with none gives a nil pointer. `none` while
-- no answer has ended the loop.
owner_loop : Bool → List (TableAnswer Owner) → Option (Outcome (Result ℕ (Option Owner)))
owner_loop has_buffer [] = none
owner_loop has_buffer (table o ∷ rest) = some (done (ok (if has_buffer then some o else none)))
owner_loop has_buffer (call_failed e ∷ rest) = some (done (err e))
owner_loop has_buffer (insufficient_buffer n ∷ rest) =
    let again = owner_loop true rest in if n == 0 then some panic else again

-- Both ask the procedure for IPv4.
unfoldable pub get_owner_module_from_tcp_entry :
    List (TableAnswer Owner) → Option (Outcome (Result ℕ (Option Owner)))
unfolding owner_loop
get_owner_module_from_tcp_entry answers = owner_loop false answers

unfoldable pub get_owner_module_from_tcp6_entry :
    List (TableAnswer Owner) → Option (Outcome (Result ℕ (Option Owner)))
unfolding owner_loop
get_owner_module_from_tcp6_entry answers = owner_loop false answers

abbrev pub more : List ℕ → List (TableAnswer Owner) → List (TableAnswer Owner)
more [] rest = rest
more (n ∷ ns) rest = insufficient_buffer n ∷ more ns rest

owner_loop-more :
    (sizes : List ℕ) (o : Owner) (rest : List (TableAnswer Owner))
    → All (λ n. n ≢ 0) sizes
    → owner_loop true (more sizes (table o ∷ rest)) ≡ some (done (ok (some o)))
unfolding owner_loop
owner_loop-more [] o rest h = refl
owner_loop-more (n ∷ sizes) o rest h = ground (arith, owner_loop-more sizes o rest h.1)

-- The owner of a connection is found if the kernel asks for a buffer at least once, each time of a size
-- above 0, and then answers. A first answer at once, for which there is no buffer, is dropped.
pub get_owner_module-retry :
    (n : ℕ) (sizes : List ℕ) (o : Owner) (rest : List (TableAnswer Owner))
    → All (λ k. k ≢ 0) (n ∷ sizes)
    → (get_owner_module_from_tcp_entry (more (n ∷ sizes) (table o ∷ rest))
        ≡ some (done (ok (some o))))
      × (get_owner_module_from_tcp_entry (table o ∷ rest) ≡ some (done (ok none)))
unfolding get_owner_module_from_tcp_entry
get_owner_module-retry n sizes o rest h = ground (arith, owner_loop-more sizes o rest h.1)
