-- ===== src/Store/Index/Encoding.antt =====
-- An index entry is read back as it was written.
use cachic.Common.{
  ℕ, ◌%◌, ◌^◌, ◌<◌, ◌≡◌, refl, sym, ap, ap₂, ◌∙◌, Bool, true, false, Option, none, some, List, [],
  ◌∷◌, ◌++◌, append_assoc, append-nil, arith, ◌==◌, ok, length, take, drop, length-append,
  take-length-append, drop-length-append,
}
use cachic.Common.Words.{le_bytes, u32_max, IsU32, IsU64, from_le-le_bytes, length-le_bytes}
use cachic.Common.Text.{utf8}
use cachic.Store.Index.{
  ObjectMeta, put_str, encode, byte_of, cursor_take, cursor_le, cursor_string, utf8_or_none,
  nonzero, decode,
}

cursor_take-append :
    (n : ℕ) (b rest : List ℕ) → length b ≡ n → cursor_take n (b ++ rest) ≡ some (b, rest)
unfolding cursor_take
cursor_take-append n b rest h = ground (
  arith,
  length-append b rest,
  ap (λ k. take k (b ++ rest)) (sym h) ∙ take-length-append b rest,
  ap (λ k. drop k (b ++ rest)) (sym h) ∙ drop-length-append b rest,
)

cursor_le-append :
    (k v : ℕ) (rest : List ℕ) → v < 256 ^ k → cursor_le k (le_bytes k v ++ rest) ≡ some (v, rest)
unfolding cursor_le
cursor_le-append k v rest h =
    rw (cursor_take-append k (le_bytes k v) rest (length-le_bytes k v))
      (ap (λ w. some (w, rest)) (from_le-le_bytes k v h))

cursor_byte : (b : Bool) (rest : List ℕ) → cursor_le 1 (byte_of b ∷ rest) ≡ some (byte_of b, rest)
unfolding le_bytes
cursor_byte true rest = cursor_le-append 1 1 rest (omega arith)
cursor_byte false rest = cursor_le-append 1 0 rest (omega arith)

-- A string that survives the trip.
abbrev pub IsStored : Option (List ℕ) → Type 0
IsStored none = Unit
IsStored (some v) = (length v < u32_max) × (utf8 v ≡ true)

cursor_string-append :
    (o : Option (List ℕ)) (rest : List ℕ)
    → IsStored o
    → cursor_string (put_str o ++ rest) ≡ some (o, rest)
unfolding cursor_string put_str
cursor_string-append none rest h = rw (cursor_le-append 4 u32_max rest (omega arith))
cursor_string-append (some v) rest (short, u) =
    rw
      (
        size,
        append_assoc (le_bytes 4 (length v)) v rest,
        cursor_le-append 4 (length v) (v ++ rest) (omega arith),
        other,
        cursor_take-append (length v) v rest refl,
      )
      (ap (λ o. some (o, rest)) (valid v u))
  where
    size : length v % 2 ^ 32 ≡ length v
    size = omega arith

    other : (length v == u32_max) ≡ false
    other = ground arith

    valid : (v : List ℕ) → utf8 v ≡ true → utf8_or_none v ≡ some v
    valid v u = unfold utf8_or_none in rw u

pub record IsMeta (m : ObjectMeta) : Type 0 where
  pub total_len : IsU64 m.total_len
  pub generation : IsU32 m.generation
  pub created : IsU64 m.created
  pub last_seen : IsU64 m.last_seen
  pub key : IsStored (some m.key)
  pub etag : IsStored m.etag
  pub last_modified : IsStored m.last_modified
  pub content_type : IsStored m.content_type

nonzero-byte_of : (b : Bool) → nonzero (byte_of b) ≡ b
nonzero-byte_of true = refl
nonzero-byte_of false = refl

decode-append : (m : ObjectMeta) (rest : List ℕ) → IsMeta m → decode (encode m ++ rest) ≡ ok m
unfolding decode encode
decode-append m rest v = simp append_assoc (
    rw
      (
        cursor_le-append 8 m.total_len _ (omega (arith, v.total_len)),
        cursor_le-append 4 m.generation _ (omega (arith, v.generation)),
        cursor_byte m.no_ranges _,
        cursor_byte m.stale _,
        cursor_le-append 8 m.created _ (omega (arith, v.created)),
        cursor_le-append 8 m.last_seen _ (omega (arith, v.last_seen)),
        cursor_string-append (some m.key) _ v.key,
        cursor_string-append m.etag _ v.etag,
        cursor_string-append m.last_modified _ v.last_modified,
        cursor_string-append m.content_type rest v.content_type,
      )
      (ap₂ (λ a b. ok (record m { no_ranges = a; stale = b })) (nonzero-byte_of m.no_ranges)
        (nonzero-byte_of m.stale)))

-- An entry whose numbers fit their words and whose strings are UTF-8 and shorter than u32::MAX is
-- decoded from its encoding as it was, every field included.
pub decode-encode_meta : (m : ObjectMeta) → IsMeta m → decode (encode m) ≡ ok m
decode-encode_meta m v = ap decode (sym (append-nil (encode m))) ∙ decode-append m [] v
