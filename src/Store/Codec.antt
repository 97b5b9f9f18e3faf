-- ===== src/Store/Codec.antt =====
-- Reading and writing little-endian words and optional strings, as `impl Code` of
-- crates/cachic/src/store/slice.rs does. A reader is the list of bytes that are still to be read; a
-- writer is memory, which takes every byte.
pub mod Laws
use cachic.Common.{
  ℕ, ◌+◌, Bool, true, false, Option, none, some, List, [], ◌∷◌, ◌++◌, ltb, leb, ◌==◌, if◌then◌else◌,
  Result, ok, err, ◌>>=◌, length, take, drop,
}
use cachic.Common.Words.{le_bytes, from_le, u32_max}
use cachic.Common.Text.{utf8}

pub data ErrorKind : Type 0 where
  io parse out_of_range magic_mismatch checksum_mismatch : ErrorKind

-- A read gives a value and what is left, or an error.
abbrev pub Read : Type 0 → Type 0
Read A = List ℕ → Result (A × List ℕ) ErrorKind

-- `read_exact` into a buffer of `n` bytes.
unfoldable pub read_exact : ℕ → Read (List ℕ)
read_exact n s = if ltb (length s) n then err io else ok (take n s, drop n s)

-- `read_exact` into `k` bytes, and `from_le_bytes`.
unfoldable pub read_le : ℕ → Read ℕ
read_le k s = read_exact k s >>= λ (b, rest). ok (from_le b, rest)

unfoldable pub opt_str_len : Option (List ℕ) → ℕ
opt_str_len none = 4 + 0
opt_str_len (some v) = 4 + length v

unfoldable pub write_opt_str : Option (List ℕ) → Result (List ℕ) ErrorKind
write_opt_str none = ok (le_bytes 4 u32_max)
write_opt_str (some v) =
    if leb (length v) u32_max then ok (le_bytes 4 (length v) ++ v) else err out_of_range

-- A string of `len` bytes, which must be UTF-8.
unfoldable pub read_str : ℕ → Read (Option (List ℕ))
read_str n s = read_exact n s >>= λ (buf, rest). if utf8 buf then ok (some buf, rest) else err parse

unfoldable pub read_opt_str : Read (Option (List ℕ))
unfolding read_str
read_opt_str s =
    read_le 4 s >>= λ (n, rest). if n == u32_max then ok (none, rest) else read_str n rest
