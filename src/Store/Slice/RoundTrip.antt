-- ===== src/Store/Slice/RoundTrip.antt =====
-- A slice that was stored is read back as it was, and takes the room that was estimated.
use cachic.Common.{
  ℕ, ◌≤◌, ◌≡◌, refl, List, ◌++◌, append_assoc, arith, ==_refl, ok, length, length-append,
}
use cachic.Common.Words.{le_bytes, u32_max, IsU32, IsU64, length-le_bytes}
use cachic.Store.Codec.Laws.{
  read_exact-append, read_le-append, read_opt_str-append, write_opt_str-opt_bytes, IsStored,
  opt_bytes, length-opt_bytes,
}
use cachic.Store.Slice.{
  SliceKey, encode_key, decode_key, encoded_len, SliceHeader, encode_header, decode_header,
  header_len, SliceValue, estimated_size, encode, decode, decode_payload, magic,
}

pub record IsKey (k : SliceKey) : Type 0 where
  pub object : length k.object ≡ 16
  pub generation : IsU32 k.generation
  pub index : IsU32 k.index

-- The bytes of a key.
abbrev pub key_bytes : SliceKey → List ℕ
key_bytes k = k.object ++ (le_bytes 4 k.generation ++ le_bytes 4 k.index)

-- A key with a 16-byte object id and u32 fields is encoded in exactly `encoded_len` bytes, and decoding
-- these in front of any further bytes gives the key back and leaves the further bytes.
pub decode-encode_key :
    (k : SliceKey) (rest : List ℕ)
    → IsKey k
    → (encode_key k ≡ ok (key_bytes k))
      × (length (key_bytes k) ≡ encoded_len)
      × (decode_key (key_bytes k ++ rest) ≡ ok (k, rest))
decode-encode_key k rest h = (
  unfold encode_key in refl,
  size,
  unfold decode_key in
      rw (
        append_assoc k.object (le_bytes 4 k.generation ++ le_bytes 4 k.index) rest,
        append_assoc (le_bytes 4 k.generation) (le_bytes 4 k.index) rest,
        read_exact-append 16 k.object (le_bytes 4 k.generation ++ (le_bytes 4 k.index ++ rest))
            h.object,
        read_le-append 4 k.generation (le_bytes 4 k.index ++ rest) (omega (arith, h.generation)),
        read_le-append 4 k.index rest (omega (arith, h.index)),
      ),
)
  where
    size : length (key_bytes k) ≡ 24
    size = omega (
      arith,
      h.object,
      length-append k.object (le_bytes 4 k.generation ++ le_bytes 4 k.index),
      length-append (le_bytes 4 k.generation) (le_bytes 4 k.index),
      length-le_bytes 4 k.generation,
      length-le_bytes 4 k.index,
    )

-- What a header must hold to survive the trip.
pub record IsHeader (h : SliceHeader) : Type 0 where
  pub slice_size : IsU32 h.slice_size
  pub total_len : IsU64 h.total_len
  pub generation : IsU32 h.generation
  pub etag : IsStored h.etag
  pub last_modified : IsStored h.last_modified
  pub content_type : IsStored h.content_type

unfoldable pub header_bytes : SliceHeader → List ℕ
header_bytes h =
    le_bytes 4 h.slice_size
    ++ (le_bytes 8 h.total_len
        ++ (le_bytes 4 h.generation
            ++ (opt_bytes h.etag ++ (opt_bytes h.last_modified ++ opt_bytes h.content_type))))

pub encode_header-header_bytes :
    (h : SliceHeader) → IsHeader h → encode_header h ≡ ok (header_bytes h)
unfolding encode_header header_bytes
encode_header-header_bytes h v = rw (
  write_opt_str-opt_bytes h.etag v.etag,
  write_opt_str-opt_bytes h.last_modified v.last_modified,
  write_opt_str-opt_bytes h.content_type v.content_type,
)

pub decode_header-append :
    (h : SliceHeader) (rest : List ℕ)
    → IsHeader h
    → decode_header (header_bytes h ++ rest) ≡ ok (h, rest)
unfolding decode_header header_bytes
decode_header-append h rest v = simp (append_assoc) (
    rw (
      read_le-append 4 h.slice_size _ (omega (arith, v.slice_size)),
      read_le-append 8 h.total_len _ (omega (arith, v.total_len)),
      read_le-append 4 h.generation _ (omega (arith, v.generation)),
      read_opt_str-append h.etag _ v.etag,
      read_opt_str-append h.last_modified _ v.last_modified,
      read_opt_str-append h.content_type rest v.content_type,
    ))

length-header_bytes : (h : SliceHeader) → length (header_bytes h) ≡ header_len h
unfolding header_len header_bytes
length-header_bytes h = simp (length-append, length-le_bytes, length-opt_bytes) (omega arith)

module _ (xxh3_64 : List ℕ → ℕ) where
  -- What a value must hold to survive the trip.
  pub record IsValue (v : SliceValue) : Type 0 where
    pub header : IsHeader v.header
    pub payload : length v.payload ≤ u32_max

  abbrev pub value_bytes : SliceValue → List ℕ
  value_bytes v =
      le_bytes 4 magic
      ++ (header_bytes v.header
          ++ (le_bytes 8 (xxh3_64 v.payload) ++ (le_bytes 4 (length v.payload) ++ v.payload)))

  pub encode-value_bytes : (v : SliceValue) → IsValue v → encode xxh3_64 v ≡ ok (value_bytes v)
  unfolding encode
  encode-value_bytes v w =
      rw (encode_header-header_bytes v.header w.header) (ground (arith, w.payload))

  length-value_bytes : (v : SliceValue) → length (value_bytes v) ≡ estimated_size v
  unfolding estimated_size
  length-value_bytes v = simp (length-append, length-le_bytes, length-header_bytes) (omega arith)

  module _ (hash_u64 : (s : List ℕ) → IsU64 (xxh3_64 s)) where
    decode_payload-append :
        (v : SliceValue) (rest : List ℕ)
        → length v.payload ≤ u32_max
        → decode_payload xxh3_64 v.header (
            le_bytes 8 (xxh3_64 v.payload)
            ++ (le_bytes 4 (length v.payload) ++ (v.payload ++ rest)))
          ≡ ok (v, rest)
    unfolding decode_payload
    decode_payload-append v rest h = rw (
      read_le-append 8 (xxh3_64 v.payload) _ (omega (arith, hash_u64 v.payload)),
      read_le-append 4 (length v.payload) (v.payload ++ rest) (omega arith),
      read_exact-append (length v.payload) v.payload rest refl,
      ==_refl (xxh3_64 v.payload),
    )

    pub decode-value_bytes :
        (v : SliceValue) (rest : List ℕ)
        → IsValue v
        → decode xxh3_64 (value_bytes v ++ rest) ≡ ok (v, rest)
    unfolding decode
    decode-value_bytes v rest w = simp (append_assoc) (
        rw (read_le-append 4 magic _ (omega arith), decode_header-append v.header _ w.header)
          (decode_payload-append v rest w.payload))

-- Let the hash return 64-bit words. A value whose numbers fit their words, whose header strings are
-- UTF-8 and shorter than u32::MAX, and whose payload is no longer than u32::MAX, is encoded, in exactly
-- `estimated_size` bytes, and decoding these in front of any further bytes gives the value back and
-- leaves the further bytes.
pub decode-encode :
    (xxh3_64 : List ℕ → ℕ) (hash_u64 : (s : List ℕ) → IsU64 (xxh3_64 s)) (v : SliceValue)
    (rest : List ℕ)
    → IsValue xxh3_64 v
    → (encode xxh3_64 v ≡ ok (value_bytes xxh3_64 v))
      × (length (value_bytes xxh3_64 v) ≡ estimated_size v)
      × (decode xxh3_64 (value_bytes xxh3_64 v ++ rest) ≡ ok (v, rest))
decode-encode xxh3_64 hash_u64 v rest w = (
  encode-value_bytes xxh3_64 v w,
  length-value_bytes xxh3_64 v,
  decode-value_bytes xxh3_64 hash_u64 v rest w,
)
