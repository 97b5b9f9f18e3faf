-- ===== src/Store/Slice/Examples.antt =====
-- The theorems on keys and values at concrete ones.
use cachic.Common.{
  ℕ, ◌%◌, ◌≡◌, ◌≢◌, refl, true, none, some, List, [], ◌∷◌, ◌++◌, ok, arith, length, All, replicate,
  take, drop, all, ltb,
}
use cachic.Common.Words.{IsU64, IsByte, le_bytes}
use cachic.Common.Text.{codes, utf8}
use cachic.Store.Slice.{SliceKey, SliceValue, encode, decode, estimated_size}
use cachic.Store.Slice.RoundTrip.{IsKey, IsValue, value_bytes, header_bytes, decode-encode}
use cachic.Store.Slice.Accepts.{decode_sound, decode_truncated}

abbrev key : SliceKey
key = record { object = replicate 16 7; generation = 3; index = 300 }

key_IsKey : IsKey key
key_IsKey = record { object = refl; generation = omega arith; index = omega arith }

-- A hash for the examples: the length of its argument.
abbrev hash : List ℕ → ℕ
hash s = length s % 256

hash-IsU64 : (s : List ℕ) → IsU64 (hash s)
hash-IsU64 s = omega arith

abbrev value : SliceValue
value = record {
  header = record {
    slice_size = 4;
    total_len = 10;
    generation = 1;
    etag = some (codes "ab");
    last_modified = none;
    content_type = none;
  };
  payload = 1 ∷ 2 ∷ 3 ∷ 4 ∷ [];
}

value-IsValue : IsValue hash value
value-IsValue = record {
  header = record {
    slice_size = omega arith;
    total_len = omega arith;
    generation = omega arith;
    etag = (omega arith, (unfold utf8 in refl), (omega arith, (omega arith, tt)));
    last_modified = tt;
    content_type = tt;
  };
  payload = omega arith;
}

decode-encode_example :
    (encode hash value ≡ ok (value_bytes hash value))
    × (length (value_bytes hash value) ≡ estimated_size value)
    × (decode hash (value_bytes hash value ++ 9 ∷ []) ≡ ok (value, 9 ∷ []))
decode-encode_example = decode-encode hash hash-IsU64 value (9 ∷ []) value-IsValue

bytes_checked : (s : List ℕ) → all (λ b. ltb b 256) s ≡ true → All IsByte s
bytes_checked [] h = tt
bytes_checked (b ∷ s) h = (ground arith, bytes_checked s (ground arith))

abbrev encoded : List ℕ
encoded = value_bytes hash value ++ 9 ∷ []

decode_sound_example : (encoded ≡ value_bytes hash value ++ 9 ∷ []) × IsValue hash value
unfolding header_bytes
decode_sound_example =
    decode_sound hash encoded (bytes_checked encoded (unfold le_bytes in refl))
      (decode-encode hash hash-IsU64 value (9 ∷ []) value-IsValue).2

abbrev front : List ℕ
front = take 10 (value_bytes hash value)

decode_truncated_example : decode hash front ≢ ok (value, [])
unfolding header_bytes
decode_truncated_example =
    decode_truncated hash hash-IsU64 value front 0 (drop 11 (value_bytes hash value)) (value, [])
      value-IsValue (bytes_checked front (unfold le_bytes in refl)) (unfold le_bytes in refl)
