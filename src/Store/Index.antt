-- ===== src/Store/Index.antt =====
-- crates/cachic/src/store/index.rs: what the index records of an object, and its encoding. `ObjectIndex`
-- itself is in the child Table.
pub mod Encoding
pub mod Table
pub mod Generations
pub mod Examples
use cachic.Common.{
  ℕ, ◌+◌, ◌%◌, ◌^◌, Bool, true, false, not, Option, none, some, List, [], ◌∷◌, ◌++◌, ltb, ◌==◌,
  if◌then◌else◌, Result, ok, err, ◌>>=◌, ◌>>?◌, ok_or, length, take, drop,
}
use cachic.Common.Words.{le_bytes, from_le, u32_max}
use cachic.Common.Text.{utf8}

pub record ObjectMeta : Type 0 where
  pub key : List ℕ
  pub total_len : ℕ
  pub generation : ℕ
  pub etag : Option (List ℕ)
  pub last_modified : Option (List ℕ)
  pub content_type : Option (List ℕ)
  pub no_ranges : Bool
  pub created : ℕ
  pub last_seen : ℕ
  pub stale : Bool

-- The reason of `IndexError::Corrupt`; the failures of the database itself are not modelled.
pub data IndexError : Type 0 where
  truncated_total_len truncated_generation truncated_no_ranges truncated_stale : IndexError
  truncated_created truncated_last_seen truncated_key missing_key : IndexError
  truncated_etag truncated_last_modified truncated_content_type : IndexError

-- `v.len() as u32` keeps the low 32 bits.
unfoldable pub put_str : Option (List ℕ) → List ℕ
put_str none = le_bytes 4 u32_max
put_str (some v) = le_bytes 4 (length v % 2 ^ 32) ++ v

-- `b as u8`.
abbrev pub byte_of : Bool → ℕ
byte_of true = 1
byte_of false = 0

unfoldable pub encode : ObjectMeta → List ℕ
encode m =
    le_bytes 8 m.total_len
    ++ (le_bytes 4 m.generation
        ++ (byte_of m.no_ranges
            ∷ byte_of m.stale
            ∷ (le_bytes 8 m.created
                ++ (le_bytes 8 m.last_seen
                    ++ (put_str (some m.key)
                        ++ (put_str m.etag
                            ++ (put_str m.last_modified ++ put_str m.content_type)))))))

-- A cursor is the list of bytes from its position on; a method gives its result and the new cursor.
abbrev pub Step : Type 0 → Type 0
Step A = List ℕ → Option (A × List ℕ)

unfoldable pub cursor_take : ℕ → Step (List ℕ)
cursor_take n s = if ltb (length s) n then none else some (take n s, drop n s)

unfoldable pub cursor_le : ℕ → Step ℕ
cursor_le k s = cursor_take k s >>? λ (b, r). some (from_le b, r)

-- `String::from_utf8(…).ok()`.
unfoldable pub utf8_or_none : List ℕ → Option (List ℕ)
utf8_or_none b = if utf8 b then some b else none

unfoldable pub cursor_string : Step (Option (List ℕ))
cursor_string s = cursor_le 4 s >>? λ (n, r).
    if n == u32_max
    then some (none, r)
    else cursor_take n r >>? λ (b, r'). some (utf8_or_none b, r')

abbrev nonzero : ℕ → Bool
nonzero b = not (b == 0)

unfoldable pub decode : List ℕ → Result ObjectMeta IndexError
decode s0 = ok_or (cursor_le 8 s0) truncated_total_len >>= λ (total_len, s1).
    ok_or (cursor_le 4 s1) truncated_generation >>= λ (generation, s2).
    ok_or (cursor_le 1 s2) truncated_no_ranges >>= λ (no_ranges, s3).
    ok_or (cursor_le 1 s3) truncated_stale >>= λ (stale, s4).
    ok_or (cursor_le 8 s4) truncated_created >>= λ (created, s5).
    ok_or (cursor_le 8 s5) truncated_last_seen >>= λ (last_seen, s6).
    ok_or (cursor_string s6) truncated_key >>= λ (found, s7). ok_or found missing_key >>= λ key.
    ok_or (cursor_string s7) truncated_etag >>= λ (etag, s8).
    ok_or (cursor_string s8) truncated_last_modified >>= λ (last_modified, s9).
    ok_or (cursor_string s9) truncated_content_type >>= λ (content_type, s10). ok (record {
      key = key;
      total_len = total_len;
      generation = generation;
      etag = etag;
      last_modified = last_modified;
      content_type = content_type;
      no_ranges = nonzero no_ranges;
      created = created;
      last_seen = last_seen;
      stale = nonzero stale;
    })
