-- ===== src/Prelude/Bytes.antt =====
-- An unsigned integer as the bytes that a little-endian machine stores for it.
use Prim.Native.Nat.{ℕ, zero, suc, ◌+◌, ◌*◌, ◌/◌, ◌%◌, ◌^◌, ◌<◌}
use mathlib.Core.Path.{◌≡◌, refl, ap}
use mathlib.Core.List.{List, [], ◌∷◌}
use native.Mathlib.Omega.{arith}
use native.Mathlib.Nat.{pow-suc}
use masters_proj.Prelude.Lists.{length}

abbrev pub le_bytes : ℕ → ℕ → List ℕ
le_bytes zero v = []
le_bytes (suc n) v = v % 256 ∷ le_bytes n (v / 256)

abbrev pub le_value : List ℕ → ℕ
le_value [] = 0
le_value (b ∷ bs) = b + 256 * le_value bs

-- `n` bytes of a file or of memory from an offset on.
abbrev pub slice : (ℕ → ℕ) → (off n : ℕ) → List ℕ
slice contents off zero = []
slice contents off (suc n) = contents off ∷ slice contents (off + 1) n

pub length-slice : (contents : ℕ → ℕ) (off n : ℕ) → length (slice contents off n) ≡ n
length-slice contents off zero = refl
length-slice contents off (suc n) = ap suc (length-slice contents (off + 1) n)

pub length-le_bytes : (n v : ℕ) → length (le_bytes n v) ≡ n
length-le_bytes zero v = refl
length-le_bytes (suc n) v = ap suc (length-le_bytes n (v / 256))

-- A value that fits in `n` bytes is read back from them.
pub le_value-le_bytes : (n v : ℕ) → v < 256 ^ n → le_value (le_bytes n v) ≡ v
le_value-le_bytes zero v h = omega arith
le_value-le_bytes (suc n) v h =
    omega (arith, le_value-le_bytes n (v / 256) (omega (arith, pow-suc 256 n)))
