-- ===== src/Common/Words.antt =====
-- Machine words: their ranges, and the byte orders `to_le_bytes`, `from_le_bytes` and `from_be_bytes`.
use Prim.Native.Nat.{ℕ, zero, suc, ◌+◌, ◌*◌, ◌/◌, ◌%◌, ◌^◌, ◌≤◌, ◌<◌, min}
use mathlib.Core.Path.{◌≡◌, refl, ap, ap₂, ◌∙◌}
use mathlib.Core.List.{List, [], ◌∷◌}
use native.Mathlib.Omega.{arith}
use cachic.Common.Lists.{length, All}

abbrev pub u32_max : ℕ
u32_max = 4294967295

abbrev pub u64_max : ℕ
u64_max = 18446744073709551615

abbrev pub IsByte : ℕ → Type 0
IsByte b = b < 256

abbrev pub IsU32 : ℕ → Type 0
IsU32 v = v ≤ 4294967295

abbrev pub IsU64 : ℕ → Type 0
IsU64 v = v ≤ 18446744073709551615

-- A u64 that has wrapped around.
abbrev pub wrap_u64 : ℕ → ℕ
wrap_u64 n = n % 18446744073709551616

-- `a.saturating_add(b)` on u32 and on u64.
abbrev pub saturating_add_u32 : ℕ → ℕ → ℕ
saturating_add_u32 a b = min (a + b) 4294967295

abbrev pub saturating_add_u64 : ℕ → ℕ → ℕ
saturating_add_u64 a b = min (a + b) 18446744073709551615

-- The `k` lowest bytes of a word, lowest first.
unfoldable pub le_bytes : ℕ → ℕ → List ℕ
le_bytes zero v = []
le_bytes (suc k) v = (v % 256) ∷ le_bytes k (v / 256)

unfoldable pub from_le : List ℕ → ℕ
from_le [] = 0
from_le (b ∷ bs) = b + 256 * from_le bs

pub from_le-le_bytes : (k v : ℕ) → v < 256 ^ k → from_le (le_bytes k v) ≡ v
unfolding le_bytes from_le
from_le-le_bytes zero v h = omega arith
from_le-le_bytes (suc k) v h = omega (arith, from_le-le_bytes k (v / 256) (omega arith))

pub length-le_bytes : (k v : ℕ) → length (le_bytes k v) ≡ k
unfolding le_bytes
length-le_bytes zero v = refl
length-le_bytes (suc k) v = ap suc (length-le_bytes k (v / 256))

pub le_bytes-IsByte : (k v : ℕ) → All IsByte (le_bytes k v)
unfolding le_bytes
le_bytes-IsByte zero v = tt
le_bytes-IsByte (suc k) v = (omega arith, le_bytes-IsByte k (v / 256))

pub from_le-lt : (k : ℕ) (bs : List ℕ) → length bs ≡ k → All IsByte bs → from_le bs < 256 ^ k
unfolding from_le
from_le-lt zero [] e h = omega arith
from_le-lt zero (b ∷ bs) e h = absurd (omega arith)
from_le-lt (suc k) [] e h = absurd (omega arith)
from_le-lt (suc k) (b ∷ bs) e h = omega (arith, from_le-lt k bs (omega arith) h.1)

-- The converse: bytes that were read as a word are the bytes of that word.
pub le_bytes-from_le :
    (k : ℕ) (bs : List ℕ) → length bs ≡ k → All IsByte bs → le_bytes k (from_le bs) ≡ bs
unfolding le_bytes from_le
le_bytes-from_le zero [] e h = refl
le_bytes-from_le zero (b ∷ bs) e h = absurd (omega arith)
le_bytes-from_le (suc k) [] e h = absurd (omega arith)
le_bytes-from_le (suc k) (b ∷ bs) e h =
    let (hb, hbs) = h in
    ap₂ ◌∷◌ low (ap (le_bytes k) high ∙ le_bytes-from_le k bs (omega arith) hbs)
  where
    low : (b + 256 * from_le bs) % 256 ≡ b
    low = omega (arith, h.0)

    high : (b + 256 * from_le bs) / 256 ≡ from_le bs
    high = omega (arith, h.0)
