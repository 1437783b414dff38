-- ===== src/Prelude/Masks.antt =====
-- Masks on masks: what is left of a word under two masks is what is left of it under their common part.
use Prim.Native.Nat.{ℕ, zero, suc, ◌+◌, ◌*◌, ◌/◌, ◌%◌, ◌≤◌, min, bit_and, digits, bit_and-bitwise}
use mathlib.Core.Path.{◌≡◌, refl, sym, ap}
use native.Mathlib.Omega.{arith}

abbrev common : ℕ → ℕ → ℕ → ℕ
common fuel v m = digits (λ m. zero) min fuel v m

common-enough : (v m fuel more : ℕ) → v ≤ fuel → v ≤ more → common fuel v m ≡ common more v m
common-enough zero m zero zero h k = refl
common-enough zero m zero (suc more) h k = refl
common-enough zero m (suc fuel) zero h k = refl
common-enough zero m (suc fuel) (suc more) h k = refl
common-enough (suc v) m zero more h k = absurd (omega arith)
common-enough (suc v) m (suc fuel) zero h k = absurd (omega arith)
common-enough (suc v) m (suc fuel) (suc more) h k =
    omega (arith, common-enough (suc v / 2) (m / 2) fuel more (omega arith) (omega arith))

-- The lowest digit, and the rest.
halves : (v m : ℕ) → bit_and v m ≡ min (v % 2) (m % 2) + 2 * bit_and (v / 2) (m / 2)
halves zero m = omega (arith, bit_and-bitwise zero m, bit_and-bitwise zero (m / 2))
halves (suc v) m = omega (
  arith,
  bit_and-bitwise (suc v) m,
  bit_and-bitwise (suc v / 2) (m / 2),
  common-enough (suc v / 2) (m / 2) v (suc v / 2) (omega arith) (omega arith),
)

halves-half : (v m : ℕ) → bit_and v m / 2 ≡ bit_and (v / 2) (m / 2)
halves-half v m = omega (arith, halves v m)

halves-digit : (v m : ℕ) → bit_and v m % 2 ≡ min (v % 2) (m % 2)
halves-digit v m = omega (arith, halves v m)

none_of : (m : ℕ) → bit_and 0 m ≡ 0
none_of m = bit_and-bitwise 0 m

assoc_to : (n v a b : ℕ) → v ≤ n → bit_and (bit_and v a) b ≡ bit_and v (bit_and a b)
assoc_to zero zero a b h = rw (none_of a, none_of b) (sym (none_of (bit_and a b)))
assoc_to zero (suc v) a b h = absurd (omega arith)
assoc_to (suc n) v a b h = omega (
  arith,
  halves (bit_and v a) b,
  halves v (bit_and a b),
  halves-digit v a,
  halves-digit a b,
  ap (λ (w : ℕ). bit_and w (b / 2)) (halves-half v a),
  ap (λ (w : ℕ). bit_and (v / 2) w) (halves-half a b),
  assoc_to n (v / 2) (a / 2) (b / 2) (omega arith),
)

pub bit_and_assoc : (v a b : ℕ) → bit_and (bit_and v a) b ≡ bit_and v (bit_and a b)
bit_and_assoc v a b = assoc_to v v a b (omega arith)

nothing_to : (n v : ℕ) → v ≤ n → bit_and v 0 ≡ 0
nothing_to zero zero h = none_of 0
nothing_to zero (suc v) h = absurd (omega arith)
nothing_to (suc n) v h = omega (arith, halves v 0, nothing_to n (v / 2) (omega arith))

pub bit_and-nothing : (v : ℕ) → bit_and v 0 ≡ 0
bit_and-nothing v = nothing_to v v (omega arith)
