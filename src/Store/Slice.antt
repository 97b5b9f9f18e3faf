-- ===== src/Store/Slice.antt =====
-- crates/cachic/src/store/slice.rs: the key of a slice and the self-describing slice value. The
-- payload's hash, `xxh3_64`, is a parameter.
pub mod RoundTrip
pub mod Accepts
pub mod Examples
use cachic.Common.{
  ℕ, ◌+◌, Bool, true, false, Option, none, some, List, [], ◌∷◌, ◌++◌, leb, ◌==◌, if◌then◌else◌,
  Result, ok, err, ◌>>=◌, length,
}
use cachic.Common.Words.{le_bytes, u32_max}
use cachic.Store.Codec.{
  ErrorKind, magic_mismatch, checksum_mismatch, out_of_range, Read, read_exact, read_le,
  opt_str_len, write_opt_str, read_opt_str,
}

abbrev pub magic : ℕ
magic = 0x43414331

-- 16 bytes, a hash of the service and the normalised key.
abbrev pub ObjectId : Type 0
ObjectId = List ℕ

pub record SliceKey : Type 0 where
  pub object : ObjectId
  pub generation : ℕ
  pub index : ℕ

abbrev pub encoded_len : ℕ
encoded_len = 16 + 4 + 4

unfoldable pub encode_key : SliceKey → Result (List ℕ) ErrorKind
encode_key k = ok (k.object ++ (le_bytes 4 k.generation ++ le_bytes 4 k.index))

unfoldable pub decode_key : Read SliceKey
decode_key s = read_exact 16 s >>= λ (object, s1). read_le 4 s1 >>= λ (generation, s2).
    read_le 4 s2 >>= λ (index, s3).
    ok (record { object = object; generation = generation; index = index }, s3)

pub record SliceHeader : Type 0 where
  pub slice_size : ℕ
  pub total_len : ℕ
  pub generation : ℕ
  pub etag : Option (List ℕ)
  pub last_modified : Option (List ℕ)
  pub content_type : Option (List ℕ)

unfoldable pub encode_header : SliceHeader → Result (List ℕ) ErrorKind
encode_header h = write_opt_str h.etag >>= λ etag.
    write_opt_str h.last_modified >>= λ last_modified.
    write_opt_str h.content_type >>= λ content_type. ok (
      le_bytes 4 h.slice_size
      ++ (le_bytes 8 h.total_len
          ++ (le_bytes 4 h.generation ++ (etag ++ (last_modified ++ content_type)))))

unfoldable pub decode_header : Read SliceHeader
decode_header s = read_le 4 s >>= λ (slice_size, s1). read_le 8 s1 >>= λ (total_len, s2).
    read_le 4 s2 >>= λ (generation, s3). read_opt_str s3 >>= λ (etag, s4).
    read_opt_str s4 >>= λ (last_modified, s5). read_opt_str s5 >>= λ (content_type, s6). ok (
      record {
        slice_size = slice_size;
        total_len = total_len;
        generation = generation;
        etag = etag;
        last_modified = last_modified;
        content_type = content_type;
      },
      s6,
    )

unfoldable pub header_len : SliceHeader → ℕ
header_len h =
    4 + 8 + 4 + opt_str_len h.etag + opt_str_len h.last_modified + opt_str_len h.content_type

pub record SliceValue : Type 0 where
  pub header : SliceHeader
  pub payload : List ℕ

unfoldable pub estimated_size : SliceValue → ℕ
unfolding header_len
estimated_size v = 4 + header_len v.header + 8 + 4 + length v.payload

module _ (xxh3_64 : List ℕ → ℕ) where
  unfoldable pub encode : SliceValue → Result (List ℕ) ErrorKind
  encode v = encode_header v.header >>= λ header.
      if leb (length v.payload) u32_max
      then ok (
          le_bytes 4 magic
          ++ (header
              ++ (le_bytes 8 (xxh3_64 v.payload) ++ (le_bytes 4 (length v.payload) ++ v.payload))))
      else err out_of_range

  -- The end of `decode`: the checksum, the length and the payload.
  unfoldable pub decode_payload : SliceHeader → Read SliceValue
  decode_payload header s = read_le 8 s >>= λ (expected, s1). read_le 4 s1 >>= λ (n, s2).
      read_exact n s2 >>= λ (payload, s3).
      if xxh3_64 payload == expected
      then ok (record { header = header; payload = payload }, s3)
      else err checksum_mismatch

  unfoldable pub decode : Read SliceValue
  unfolding decode_payload
  decode s = read_le 4 s >>= λ (found, s1).
      if found == magic
      then (decode_header s1 >>= λ (header, s2). decode_payload header s2)
      else err magic_mismatch
