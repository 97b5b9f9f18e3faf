-- ===== src/Store/Slice/Accepts.antt =====
-- What `decode` accepts: nothing but encodings, so no damaged slice is served.
use cachic.Common.{
  ℕ, ◌≤◌, ◌≡◌, ◌≢◌, refl, sym, ap, ◌∙◌, List, [], ◌∷◌, ◌++◌, append_assoc, append-nil, arith, ◌==◌,
  ==_iff, Bool-cases, inl, inr, ok, ◌>>=◌, >>=-eq-ok, ok-injective, err-ne-ok, subst, length, All,
  length-append,
}
use cachic.Common.Words.{le_bytes, u32_max, IsByte, IsU64}
use cachic.Store.Codec.Laws.{read_exact-elim, read_le-elim, read_opt_str-elim}
use cachic.Store.Slice.{SliceHeader, decode_header, SliceValue, decode, decode_payload, magic}
use cachic.Store.Slice.RoundTrip.{IsHeader, header_bytes, IsValue, value_bytes, decode-value_bytes}

decode_header_sound :
    (s : List ℕ) {h : SliceHeader} {rest : List ℕ}
    → All IsByte s
    → decode_header s ≡ ok (h, rest)
    → (s ≡ header_bytes h ++ rest) × IsHeader h × All IsByte rest
unfolding decode_header
decode_header_sound s {h} {rest} b e = read_le-elim s b 4 _ e λ slice_size s1 p1 v1 b1 e1.
    read_le-elim s1 b1 8 _ e1 λ total_len s2 p2 v2 b2 e2.
      read_le-elim s2 b2 4 _ e2 λ generation s3 p3 v3 b3 e3.
        read_opt_str-elim s3 b3 _ e3 λ etag s4 p4 v4 b4 e4.
          read_opt_str-elim s4 b4 _ e4 λ last_modified s5 p5 v5 b5 e5.
            read_opt_str-elim s5 b5 _ e5 λ content_type s6 p6 v6 b6 e6.
              let found : SliceHeader = record {
                slice_size = slice_size;
                total_len = total_len;
                generation = generation;
                etag = etag;
                last_modified = last_modified;
                content_type = content_type;
              } in
              subst (λ p. (s ≡ header_bytes p.0 ++ p.1) × IsHeader p.0 × All IsByte p.1)
                (ok-injective e6)
                (unfold header_bytes in
                  (
                    simp append_assoc (rw (p1, p2, p3, p4, p5, p6)),
                    record {
                      slice_size = omega arith;
                      total_len = omega arith;
                      generation = omega arith;
                      etag = v4;
                      last_modified = v5;
                      content_type = v6;
                    },
                    b6,
                  ))

module _ (xxh3_64 : List ℕ → ℕ) where
  decode_payload_sound :
      (header : SliceHeader) (s : List ℕ) {v : SliceValue} {rest : List ℕ}
      → All IsByte s
      → decode_payload xxh3_64 header s ≡ ok (v, rest)
      → (s
          ≡ le_bytes 8 (xxh3_64 v.payload)
            ++ (le_bytes 4 (length v.payload) ++ (v.payload ++ rest)))
        × (v.header ≡ header)
        × (length v.payload ≤ u32_max)
  unfolding decode_payload
  decode_payload_sound header s {v} {rest} b e = read_le-elim s b 8 _ e λ expected s1 p1 v1 b1 e1.
      read_le-elim s1 b1 4 _ e1 λ n s2 p2 v2 b2 e2.
        read_exact-elim s2 b2 n _ e2 λ payload s3 p3 len b3 e3.
          elim (Bool-cases (xxh3_64 payload == expected)) [
            | inl same ↦
                let same' : xxh3_64 payload ≡ expected = (==_iff _ expected).0 same in
                subst
                  (λ p.
                    (s
                      ≡ le_bytes 8 (xxh3_64 p.0.payload)
                        ++ (le_bytes 4 (length p.0.payload) ++ (p.0.payload ++ p.1)))
                    × (p.0.header ≡ header)
                    × (length p.0.payload ≤ u32_max))
                  (ok-injective (rw same at e3)) (rw (same', len, p1, p2, p3), refl, omega arith)
            | inr differ ↦ absurd (err-ne-ok (rw differ at e3))
          ]

  -- Let the hash be any function. If `decode` accepts bytes, then they begin with the encoding of the
  -- value that it returns, its checksum included, and the value is one that `encode` takes.
  pub decode_sound :
      (s : List ℕ) {v : SliceValue} {rest : List ℕ}
      → All IsByte s
      → decode xxh3_64 s ≡ ok (v, rest)
      → (s ≡ value_bytes xxh3_64 v ++ rest) × IsValue xxh3_64 v
  unfolding decode
  decode_sound s {v} {rest} b e = read_le-elim s b 4 _ e λ found s1 p1 v1 b1 e1.
      elim (Bool-cases (found == magic)) [
        | inl same ↦
            with_magic s1 (p1 ∙ ap (λ k. le_bytes 4 k ++ s1) ((==_iff found magic).0 same)) b1
              (rw same at e1)
        | inr differ ↦ absurd (err-ne-ok (rw differ at e1))
      ]
    where
      with_header :
          (header : SliceHeader) (s2 : List ℕ)
          → s ≡ le_bytes 4 magic ++ (header_bytes header ++ s2)
          → IsHeader header
          → All IsByte s2
          → decode_payload xxh3_64 header s2 ≡ ok (v, rest)
          → (s ≡ value_bytes xxh3_64 v ++ rest) × IsValue xxh3_64 v
      with_header header s2 p w b2 e2 =
          let (q, eh, short) = decode_payload_sound header s2 b2 e2 in
          (
            simp append_assoc (rw (p, q, eh)),
            record { header = subst IsHeader (sym eh) w; payload = short },
          )

      with_magic :
          (s1 : List ℕ)
          → s ≡ le_bytes 4 magic ++ s1
          → All IsByte s1
          → (decode_header s1 >>= λ (header, s2). decode_payload xxh3_64 header s2) ≡ ok (v, rest)
          → (s ≡ value_bytes xxh3_64 v ++ rest) × IsValue xxh3_64 v
      with_magic s1 p b1 e1 =
          let ((header, s2), r, e2) = >>=-eq-ok (decode_header s1) _ e1 in
          let (q, w, b2) = decode_header_sound s1 b1 r in
          with_header header s2 (p ∙ ap (λ l. le_bytes 4 magic ++ l) q) w b2 e2

-- Let the hash return 64-bit words. No proper prefix of the encoding of a value is accepted: if bytes
-- `front` and at least one more byte `x` make up the encoding, then `decode` fails on `front`.
pub decode_truncated :
    (xxh3_64 : List ℕ → ℕ) (hash_u64 : (s : List ℕ) → IsU64 (xxh3_64 s)) (v : SliceValue)
    (front : List ℕ) (x : ℕ) (back : List ℕ) (p : SliceValue × List ℕ)
    → IsValue xxh3_64 v
    → All IsByte front
    → value_bytes xxh3_64 v ≡ front ++ (x ∷ back)
    → decode xxh3_64 front ≢ ok p
decode_truncated xxh3_64 hash_u64 v front x back (u, rest) w b cut e =
    let (split, wu) = decode_sound xxh3_64 front b e in
    let same : (u, rest ++ (x ∷ back)) ≡ (v, []) = ok-injective (sym (longer wu split) ∙ whole) in
    omega (arith, ap (λ (q : SliceValue × List ℕ). length q.1) same, length-append rest (x ∷ back))
  where
    longer :
        IsValue xxh3_64 u
        → front ≡ value_bytes xxh3_64 u ++ rest
        → decode xxh3_64 (front ++ (x ∷ back)) ≡ ok (u, rest ++ (x ∷ back))
    longer wu split =
        ap (λ l. decode xxh3_64 (l ++ (x ∷ back))) split
        ∙ ap (decode xxh3_64) (append_assoc (value_bytes xxh3_64 u) rest (x ∷ back))
        ∙ decode-value_bytes xxh3_64 hash_u64 u (rest ++ (x ∷ back)) wu

    whole : decode xxh3_64 (front ++ (x ∷ back)) ≡ ok (v, [])
    whole =
        ap (decode xxh3_64) (sym (append-nil (value_bytes xxh3_64 v) ∙ cut))
        ∙ decode-value_bytes xxh3_64 hash_u64 v [] w
