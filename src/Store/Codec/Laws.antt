-- ===== src/Store/Codec/Laws.antt =====
-- Each reader reads back what the writer wrote, and accepts nothing else.
use cachic.Common.{
  ℕ, ◌+◌, ◌^◌, ◌≤◌, ◌<◌, ◌≡◌, refl, sym, ap, ap₂, ◌∙◌, true, Option, none, some, List, [], ◌∷◌,
  ◌++◌, arith, ◌==◌, Bool-cases, inl, inr, ==_iff, Result, ok, ◌>>=◌, >>=-eq-ok, length, take, drop,
  All, length-append, length-take, take-append-drop, take-length-append, drop-length-append,
  append_assoc,
}
use cachic.Common.Words.{
  le_bytes, from_le, u32_max, IsByte, from_le-le_bytes, length-le_bytes, le_bytes-from_le,
  from_le-lt,
}
use cachic.Common.Text.{utf8}
use cachic.Store.Codec.{
  ErrorKind, read_exact, read_le, opt_str_len, write_opt_str, read_str, read_opt_str,
}

pub read_exact-append :
    (n : ℕ) (b rest : List ℕ) → length b ≡ n → read_exact n (b ++ rest) ≡ ok (b, rest)
unfolding read_exact
read_exact-append n b rest h = ground (
  arith,
  length-append b rest,
  ap (λ k. take k (b ++ rest)) (sym h) ∙ take-length-append b rest,
  ap (λ k. drop k (b ++ rest)) (sym h) ∙ drop-length-append b rest,
)

pub All-take : (n : ℕ) (s : List ℕ) → All IsByte s → All IsByte (take n s)
All-take Prim.Native.Nat.zero s h = tt
All-take (Prim.Native.Nat.suc n) [] h = tt
All-take (Prim.Native.Nat.suc n) (c ∷ s) h = (h.0, All-take n s h.1)

pub All-drop : (n : ℕ) (s : List ℕ) → All IsByte s → All IsByte (drop n s)
All-drop Prim.Native.Nat.zero s h = h
All-drop (Prim.Native.Nat.suc n) [] h = tt
All-drop (Prim.Native.Nat.suc n) (c ∷ s) h = All-drop n s h.1

read_exact_parts :
    (n : ℕ) (s : List ℕ) {b rest : List ℕ}
    → read_exact n s ≡ ok (b, rest)
    → (take n s ≡ b) × (drop n s ≡ rest) × (n ≤ length s)
unfolding read_exact
read_exact_parts n s e = (ground arith, ground arith, ground arith)

pub read_exact_sound :
    (n : ℕ) (s : List ℕ) {b rest : List ℕ}
    → All IsByte s
    → read_exact n s ≡ ok (b, rest)
    → (s ≡ b ++ rest) × (length b ≡ n) × All IsByte b × All IsByte rest
read_exact_sound n s h e =
    let (p, q, r) = read_exact_parts n s e in
    rw (← p, ← q)
      (sym (take-append-drop n s), omega (arith, length-take n s), All-take n s h, All-drop n s h)

pub read_le-append :
    (k v : ℕ) (rest : List ℕ) → v < 256 ^ k → read_le k (le_bytes k v ++ rest) ≡ ok (v, rest)
unfolding read_le
read_le-append k v rest h =
    rw (read_exact-append k (le_bytes k v) rest (length-le_bytes k v))
      (ap (λ w. ok (w, rest)) (from_le-le_bytes k v h))

pub read_le_sound :
    (k : ℕ) (s : List ℕ) {v : ℕ} {rest : List ℕ}
    → All IsByte s
    → read_le k s ≡ ok (v, rest)
    → (s ≡ le_bytes k v ++ rest) × (v < 256 ^ k) × All IsByte rest
unfolding read_le
read_le_sound k s {v} {rest} h e =
    let ((b, r), e1, e2) = >>=-eq-ok (read_exact k s) _ e in
    let (split, len, hb, hr) = read_exact_sound k s h e1 in
    let ev : from_le b ≡ v = cc e2 in
    let er : r ≡ rest = cc e2 in
    rw (← ev, ← er)
      (split ∙ ap (λ l. l ++ r) (sym (le_bytes-from_le k b len hb)), from_le-lt k b len hb, hr)

-- A string that survives the trip: UTF-8, and shorter than the mark of an absent one.
abbrev pub IsStored : Option (List ℕ) → Type 0
IsStored none = Unit
IsStored (some v) = (length v < u32_max) × (utf8 v ≡ true) × All IsByte v

-- The bytes of an optional string that can be stored.
abbrev pub opt_bytes : Option (List ℕ) → List ℕ
opt_bytes none = le_bytes 4 u32_max
opt_bytes (some v) = le_bytes 4 (length v) ++ v

pub write_opt_str-opt_bytes :
    (o : Option (List ℕ)) → IsStored o → write_opt_str o ≡ ok (opt_bytes o)
unfolding write_opt_str
write_opt_str-opt_bytes none h = refl
write_opt_str-opt_bytes (some v) h = ground arith

pub length-opt_bytes : (o : Option (List ℕ)) → length (opt_bytes o) ≡ opt_str_len o
unfolding opt_str_len
length-opt_bytes none = length-le_bytes 4 u32_max
length-opt_bytes (some v) =
    length-append (le_bytes 4 (length v)) v ∙ ap (λ k. k + length v) (length-le_bytes 4 (length v))

read_str-append :
    (v rest : List ℕ) → utf8 v ≡ true → read_str (length v) (v ++ rest) ≡ ok (some v, rest)
unfolding read_str
read_str-append v rest h = rw (read_exact-append (length v) v rest refl, h)

pub read_opt_str-append :
    (o : Option (List ℕ)) (rest : List ℕ)
    → IsStored o
    → read_opt_str (opt_bytes o ++ rest) ≡ ok (o, rest)
unfolding read_opt_str
read_opt_str-append none rest h = rw (read_le-append 4 u32_max rest (omega arith))
read_opt_str-append (some v) rest (short, u, b) =
    rw
      (
        append_assoc (le_bytes 4 (length v)) v rest,
        read_le-append 4 (length v) (v ++ rest) (omega arith),
      )
      (ground (arith, read_str-append v rest u))

-- The longest string that the writer takes is read back as an absent one.
pub read_opt_str_longest :
    (v rest : List ℕ)
    → length v ≡ u32_max
    → (write_opt_str (some v) ≡ ok (opt_bytes (some v)))
      × (read_opt_str (opt_bytes (some v) ++ rest) ≡ ok (none, v ++ rest))
read_opt_str_longest v rest h = (written, unread)
  where
    written : write_opt_str (some v) ≡ ok (opt_bytes (some v))
    written = unfold write_opt_str in ground arith

    unread : read_opt_str (opt_bytes (some v) ++ rest) ≡ ok (none, v ++ rest)
    unread =
        unfold read_opt_str in
        rw (
          append_assoc (le_bytes 4 (length v)) v rest,
          read_le-append 4 (length v) (v ++ rest) (omega arith),
          h,
        )

read_str_sound :
    (n : ℕ) (s : List ℕ) {o : Option (List ℕ)} {rest : List ℕ}
    → n < u32_max
    → All IsByte s
    → read_str n s ≡ ok (o, rest)
    → (le_bytes 4 n ++ s ≡ opt_bytes o ++ rest) × IsStored o × All IsByte rest
unfolding read_str
read_str_sound n s {o} {rest} lt h e =
    let ((b, r), e1, e2) = >>=-eq-ok (read_exact n s) _ e in
    let (split, len, hb, hr) = read_exact_sound n s h e1 in
    let u : utf8 b ≡ true = ground arith in
    let eo : some b ≡ o = ground arith in
    let er : r ≡ rest = ground arith in
    rw (← eo, ← er)
      (
        ap₂ (λ k l. le_bytes 4 k ++ l) (sym len) split
            ∙ sym (append_assoc (le_bytes 4 (length b)) b r),
        (omega arith, u, hb),
        hr,
      )

pub read_opt_str_sound :
    (s : List ℕ) {o : Option (List ℕ)} {rest : List ℕ}
    → All IsByte s
    → read_opt_str s ≡ ok (o, rest)
    → (s ≡ opt_bytes o ++ rest) × IsStored o × All IsByte rest
unfolding read_opt_str
read_opt_str_sound s {o} {rest} h e =
    let ((n, r), e1, e2) = >>=-eq-ok (read_le 4 s) _ e in
    let (split, lt, hr) = read_le_sound 4 s h e1 in
    elim (Bool-cases (n == u32_max)) [
      | inl absent ↦
          let en : n ≡ u32_max = (==_iff n u32_max).0 absent in
          let eo : none ≡ o = ground arith in
          let er : r ≡ rest = ground arith in
          rw (← eo, ← er) (split ∙ ap (λ k. le_bytes 4 k ++ r) en, tt, hr)
      | inr present ↦
          let e3 : read_str n r ≡ ok (o, rest) = ground arith in
          let (p, q, w) = read_str_sound n r {o = o} (ground arith) hr e3 in (split ∙ p, q, w)
    ]

-- The same, for a reader that is followed by the rest of a function.
module _ {B : Type 0} {y : B} {Q : Type 0} (s : List ℕ) (bytes : All IsByte s) where
  pub read_exact-elim :
      (n : ℕ) (f : List ℕ × List ℕ → Result B ErrorKind)
      → (read_exact n s >>= f) ≡ ok y
      → ((b rest : List ℕ)
          → s ≡ b ++ rest
          → length b ≡ n
          → All IsByte rest
          → f (b, rest) ≡ ok y
          → Q)
      → Q
  read_exact-elim n f e k =
      let ((b, r), e1, e2) = >>=-eq-ok (read_exact n s) f e in
      let (p, len, _, hr) = read_exact_sound n s bytes e1 in k b r p len hr e2

  pub read_le-elim :
      (n : ℕ) (f : ℕ × List ℕ → Result B ErrorKind)
      → (read_le n s >>= f) ≡ ok y
      → ((v : ℕ) (rest : List ℕ)
          → s ≡ le_bytes n v ++ rest
          → v < 256 ^ n
          → All IsByte rest
          → f (v, rest) ≡ ok y
          → Q)
      → Q
  read_le-elim n f e k =
      let ((v, r), e1, e2) = >>=-eq-ok (read_le n s) f e in
      let (p, lt, hr) = read_le_sound n s bytes e1 in k v r p lt hr e2

  pub read_opt_str-elim :
      (f : Option (List ℕ) × List ℕ → Result B ErrorKind)
      → (read_opt_str s >>= f) ≡ ok y
      → ((o : Option (List ℕ)) (rest : List ℕ)
          → s ≡ opt_bytes o ++ rest
          → IsStored o
          → All IsByte rest
          → f (o, rest) ≡ ok y
          → Q)
      → Q
  read_opt_str-elim f e k =
      let ((o, r), e1, e2) = >>=-eq-ok (read_opt_str s) f e in
      let (p, v, hr) = read_opt_str_sound s {o = o} bytes e1 in k o r p v hr e2
