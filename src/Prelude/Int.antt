-- ===== src/Prelude/Int.antt =====
-- The C type `int`: an index, or a negative number such as the error value -1.
use Prim.Native.Nat.{ℕ, ◌-◌, ◌+◌, ◌*◌, ◌/◌, ◌%◌, ◌^◌, ◌<◌}
use mathlib.Core.Path.{◌≡◌, refl}
use mathlib.Core.Bool.{Bool, true, false}
use mathlib.Core.List.{List, [], ◌∷◌}
use native.Mathlib.Omega.{arith}
use tecnico_fs_so.Prelude.Tests.{ltb, ◌==◌, if◌then◌else◌}
use tecnico_fs_so.Prelude.Lists.{length}

-- `negsuc n` is -(n + 1).
pub data ℤ : Type 0 where
  pos : ℕ → ℤ
  negsuc : ℕ → ℤ

abbrev pub minus_one : ℤ
minus_one = negsuc 0

abbrev pub is_minus_one : ℤ → Bool
is_minus_one (pos n) = false
is_minus_one (negsuc n) = n == 0

-- `n >= 0`.
abbrev pub nonneg : ℤ → Bool
nonneg (pos n) = true
nonneg (negsuc n) = false

abbrev pub int_eq : ℤ → ℤ → Bool
int_eq (pos m) (pos n) = m == n
int_eq (negsuc m) (negsuc n) = m == n
int_eq (pos m) (negsuc n) = false
int_eq (negsuc m) (pos n) = false

abbrev u32_mod : ℕ
u32_mod = 2 ^ 32

-- The bit pattern of an `int32_t`.
abbrev to_u32 : ℤ → ℕ
to_u32 (pos n) = n % u32_mod
to_u32 (negsuc n) = u32_mod - 1 - n % u32_mod

abbrev of_u32 : ℕ → ℤ
of_u32 v = if ltb v (2 ^ 31) then pos v else negsuc (u32_mod - 1 - v)

-- The four bytes of an `int` in memory, the lowest first.
unfoldable pub int_bytes : ℤ → List ℕ
int_bytes x =
    let v = to_u32 x in v % 256 ∷ v / 256 % 256 ∷ v / 65536 % 256 ∷ v / 16777216 % 256 ∷ []

-- Reading an `int` from memory. The last clause is never reached by the code.
unfoldable pub read_int : List ℕ → ℤ
read_int (a ∷ b ∷ c ∷ d ∷ rest) = of_u32 (a + 256 * b + 65536 * c + 16777216 * d)
read_int _ = minus_one

pub length-int_bytes : (x : ℤ) → length (int_bytes x) ≡ 4
unfolding int_bytes
length-int_bytes x = refl

-- An index below 2^31 and the value -1 survive being stored.
pub read_int-int_bytes : (n : ℕ) → n < 2 ^ 31 → read_int (int_bytes (pos n)) ≡ pos n
unfolding int_bytes read_int
read_int-int_bytes n h = ground arith

pub read_int-minus_one : read_int (int_bytes minus_one) ≡ minus_one
unfolding int_bytes read_int
read_int-minus_one = refl
