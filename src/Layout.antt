-- ===== src/Layout.antt =====
-- The structures that win32/ passes to Windows by address: where each of their members lies in memory.
-- Both the Go compiler for amd64 and the C compilers for Windows on x64 lay out a structure so: a
-- number stands at a multiple of its width, a structure and a union at a multiple of the largest
-- alignment within, each member at the next such place, and the size is rounded up to the alignment.
pub mod Structures
pub mod Documented
pub mod Agreement
pub mod Classes
use Prim.Native.Nat.{max}
use damon.Prelude.{ℕ, ◌+◌, ◌-◌, ◌*◌, ◌/◌, String, List, [], ◌∷◌, ◌++◌}

-- A type of win32/base_types_win32.go, or a type of Go, by its width; signed or not is the same here.
pub data Scalar : Type 0 where
  uint8 : Scalar
  uint16 : Scalar
  uint32 : Scalar
  uint64 : Scalar
  uintptr : Scalar

unfoldable pub width : Scalar → ℕ
width uint8 = 1
width uint16 = 2
width uint32 = 4
width uint64 = 8
width uintptr = 8

infixr 20 ◌&◌
infix 30 ◌is◌
-- `many n s` is `[n]s`, `single d` is `[ANY_SIZE]d`; a pad is the `_ [n]byte` that the code writes out.
mutual
  pub data Declared : Type 0 where
    one : Scalar → Declared
    many : ℕ → Scalar → Declared
    single : Declared → Declared
    struct : Members → Declared
    union : Members → Declared

  pub data Member : Type 0 where
    ◌is◌ : String → Declared → Member
    pad : ℕ → Member

  pub data Members : Type 0 where
    done : Members
    ◌&◌ : Member → Members → Members

unfoldable pub round_up : ℕ → ℕ → ℕ
round_up a n = (n + a - 1) / a * a

unfoldable mutual
  pub align : Declared → ℕ
  align (one s) = width s
  align (many n s) = width s
  align (single d) = align d
  align (struct ms) = align_all ms
  align (union ms) = align_all ms

  pub align_all : Members → ℕ
  align_all done = 1
  align_all ((name is d) & ms) = max (align d) (align_all ms)
  align_all (pad n & ms) = align_all ms

-- `end_of at ms` is where the last of the members ends when the first may begin at `at`.
unfoldable mutual
  pub size : Declared → ℕ
  size (one s) = width s
  size (many n s) = n * width s
  size (single d) = size d
  size (struct ms) = round_up (align_all ms) (end_of 0 ms)
  size (union ms) = round_up (align_all ms) (largest ms)

  pub end_of : ℕ → Members → ℕ
  end_of at done = at
  end_of at ((name is d) & ms) = end_of (round_up (align d) at + size d) ms
  end_of at (pad n & ms) = end_of (at + n) ms

  pub largest : Members → ℕ
  largest done = 0
  largest ((name is d) & ms) = max (size d) (largest ms)
  largest (pad n & ms) = max n (largest ms)

-- A number or an array of numbers within a structure: the member's name, its offset and its size.
pub record Place : Type 0 where
  pub label : String
  pub at : ℕ
  pub extent : ℕ

abbrev place : String → ℕ → ℕ → Place
place name at n = record { label = name; at = at; extent = n }

-- The members from an offset on, those of inner structures by their own names; pads are left out.
unfoldable mutual
  pub places : String → ℕ → Declared → List Place
  places name at (one s) = place name at (width s) ∷ []
  places name at (many n s) = place name at (n * width s) ∷ []
  places name at (single d) = places name at d
  places name at (struct ms) = places_of at 0 ms
  places name at (union ms) = places_over at ms

  pub places_of : ℕ → ℕ → Members → List Place
  places_of base at done = []
  places_of base at ((name is d) & ms) =
      places name (base + round_up (align d) at) d
      ++ places_of base (round_up (align d) at + size d) ms
  places_of base at (pad n & ms) = places_of base (at + n) ms

  pub places_over : ℕ → Members → List Place
  places_over base done = []
  places_over base ((name is d) & ms) = places name base d ++ places_over base ms
  places_over base (pad n & ms) = places_over base ms
