-- ===== src/Base/Bytes.antt =====
-- Byte strings and the big-endian integers of encoding/binary.
use Prim.Native.Nat.{ℕ, ◌+◌, ◌*◌, ◌/◌, ◌%◌, ◌^◌, ◌<◌}
use mathlib.Core.Path.{◌≡◌}
use mathlib.Core.List.{List, [], ◌∷◌}
use mathlib.Core.Bool.{Bool, true, false}
unfoldable use mathlib.Core.Bool.{◌&&◌}
use mathlib.Core.Logic.{◌↔◌}
use native.Mathlib.Decide.{ℕ_discrete}
use native.Mathlib.Omega.{arith}
use mochi.Base.Lists.{All}
use mochi.Base.Tests.{◌==◌}

abbrev pub Bytes : Type 0
Bytes = List ℕ

abbrev pub AreBytes : Bytes → Type 0
AreBytes = All (λ b. b < 256)

-- The number that the bytes write, most significant byte first, after a prefix.
unfoldable pub from_be : ℕ → Bytes → ℕ
from_be acc [] = acc
from_be acc (b ∷ bs) = from_be (acc * 256 + b) bs

abbrev pub uint_be : Bytes → ℕ
uint_be = from_be 0

-- binary.BigEndian.PutUint16, PutUint32, PutUint64, and binary.Write of such a value
unfoldable pub put_uint16 : ℕ → Bytes
put_uint16 v = (v / 256 % 256) ∷ (v % 256) ∷ []

unfoldable pub put_uint32 : ℕ → Bytes
put_uint32 v = (v / 2 ^ 24 % 256) ∷ (v / 2 ^ 16 % 256) ∷ (v / 2 ^ 8 % 256) ∷ (v % 256) ∷ []

unfoldable pub put_uint64 : ℕ → Bytes
put_uint64 v =
    (v / 2 ^ 56 % 256)
    ∷ (v / 2 ^ 48 % 256)
    ∷ (v / 2 ^ 40 % 256)
    ∷ (v / 2 ^ 32 % 256)
    ∷ put_uint32 (v % 2 ^ 32)

pub uint_be-put_uint16 : (v : ℕ) → v < 2 ^ 16 → uint_be (put_uint16 v) ≡ v
unfolding from_be put_uint16
uint_be-put_uint16 v h = omega arith

pub uint_be-put_uint32 : (v : ℕ) → v < 2 ^ 32 → uint_be (put_uint32 v) ≡ v
unfolding from_be put_uint32
uint_be-put_uint32 v h = omega arith

pub uint_be-put_uint64 : (v : ℕ) → v < 2 ^ 64 → uint_be (put_uint64 v) ≡ v
unfolding from_be put_uint64 put_uint32
uint_be-put_uint64 v h = omega arith

unfoldable pub Bytes-discrete : Discrete Bytes
unfolding ℕ_discrete
Bytes-discrete = hlevel ℕ_discrete

-- `a == b` on strings, bytes.Equal
unfoldable pub bytes_eq : Bytes → Bytes → Bool
unfolding Bytes-discrete
bytes_eq a b = elim (Bytes-discrete a b) [ yes p ↦ true | no p ↦ false ]

pub bytes_eq_iff : (a b : Bytes) → (bytes_eq a b ≡ true) ↔ (a ≡ b)
unfolding bytes_eq
bytes_eq_iff a b = ground arith

-- strings.HasPrefix
unfoldable pub has_prefix : Bytes → Bytes → Bool
has_prefix bs [] = true
has_prefix [] (p ∷ ps) = false
has_prefix (b ∷ bs) (p ∷ ps) = (b == p) && has_prefix bs ps
