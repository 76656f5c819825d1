-- ===== src/Protocol/Words.antt =====
-- protocol/: the integers of a packet as bytes, the lowest first.
use tecnico_fs_so.Prelude.{
  ℕ, refl, List, [], ap, arith, length, suc, zero, ◌%◌, ◌*◌, ◌+◌, ◌/◌, ◌<◌, ◌∷◌, ◌≡◌,
}

-- The lowest `k` bytes of a number.
unfoldable pub le_bytes : ℕ → ℕ → List ℕ
le_bytes zero n = []
le_bytes (suc k) n = n % 256 ∷ le_bytes k (n / 256)

unfoldable pub read_le : List ℕ → ℕ
read_le [] = 0
read_le (b ∷ bytes) = b + 256 * read_le bytes

-- 256 to the power of `k`.
abbrev pub byte_limit : ℕ → ℕ
byte_limit zero = 1
byte_limit (suc k) = 256 * byte_limit k

pub length-le_bytes : (k n : ℕ) → length (le_bytes k n) ≡ k
unfolding le_bytes
length-le_bytes zero n = refl
length-le_bytes (suc k) n = ap suc (length-le_bytes k (n / 256))

-- A number of `k` bytes survives being written and read.
pub read_le-le_bytes : (k n : ℕ) → n < byte_limit k → read_le (le_bytes k n) ≡ n
unfolding le_bytes read_le
read_le-le_bytes zero n h = omega arith
read_le-le_bytes (suc k) n h = omega (arith, read_le-le_bytes k (n / 256) (omega arith))
