-- ===== src/Sni/ClientHello/RoundTrip.antt =====
-- A ClientHello as a client writes it, and the name that `server_name` finds in it.
use cachic.Common.{
  ℕ, zero, suc, ◌+◌, ◌-◌, ◌/◌, ◌%◌, ◌<◌, ◌≤◌, min, ◌≡◌, refl, sym, ap, ◌∙◌, false, some, List, [],
  ◌∷◌, ◌++◌, ltb, ◌==◌, length, arith, length-append, take-length-append, drop-length-append,
}
use cachic.Sni.ClientHello.{
  take_bytes, u8, u16, names_loop, host_of, host_in, extensions_loop, skip_u8_vec, skip_u16_vec,
  hello_fields, record_fields, client_hello, server_name, record_handshake, name_type_host,
  ext_server_name, handshake_client_hello,
}

-- A field behind its length in one byte, and in two, before the bytes that follow.
vec8 : List ℕ → List ℕ → List ℕ
vec8 x s = length x ∷ x ++ s

be16 : ℕ → List ℕ → List ℕ
be16 n s = n / 256 ∷ n % 256 ∷ s

vec16 : List ℕ → List ℕ → List ℕ
unfolding be16
vec16 x s = be16 (length x) (x ++ s)

-- What the extension `server_name` holds: the list of one name, with more entries behind it.
name_list : List ℕ → List ℕ → List ℕ
unfolding vec16
name_list name more = name_type_host ∷ vec16 name more

sni_extension : List ℕ → List ℕ → List ℕ → List ℕ
unfolding be16 vec16 name_list
sni_extension name more after = be16 ext_server_name (vec16 (vec16 (name_list name more) []) after)

take_bytes-append : (a b : List ℕ) → take_bytes (length a) (a ++ b) ≡ some (a, b)
take_bytes-append a b =
    unfold take_bytes in rw (no_more, take-length-append a b, drop-length-append a b) refl
  where
    no_more : ltb (length (a ++ b)) (length a) ≡ false
    no_more = ground (arith, length-append a b)

u16-be16 : (n : ℕ) (s : List ℕ) → u16 (be16 n s) ≡ some (n, s)
unfolding be16 u16
u16-be16 n s = ap (λ k. some (k, s)) (omega arith)

u16-vec16 : (x s : List ℕ) → u16 (vec16 x s) ≡ some (length x, x ++ s)
unfolding vec16
u16-vec16 x s = u16-be16 (length x) (x ++ s)

skip_u8_vec-vec8 : (x s : List ℕ) → skip_u8_vec (vec8 x s) ≡ some s
unfolding skip_u8_vec u8 vec8
skip_u8_vec-vec8 x s = rw (take_bytes-append x s) refl

skip_u16_vec-vec16 : (x s : List ℕ) → skip_u16_vec (vec16 x s) ≡ some s
unfolding skip_u16_vec vec16
skip_u16_vec-vec16 x s = rw (u16-be16 (length x) (x ++ s), take_bytes-append x s) refl

names_loop-first :
    (rounds : ℕ) (name more : List ℕ) → names_loop (suc rounds) (name_list name more) ≡ host_of name
unfolding names_loop name_list vec16 u8
names_loop-first rounds name more =
    rw (u16-be16 (length name) (name ++ more), take_bytes-append name more) refl

names_loop-name_list :
    (name more : List ℕ)
    → names_loop (length (name_list name more)) (name_list name more) ≡ host_of name
unfolding name_list
names_loop-name_list name more = names_loop-first (length (vec16 name more)) name more

host_in-name_list : (name more : List ℕ) → host_in (vec16 (name_list name more) []) ≡ host_of name
unfolding host_in vec16
host_in-name_list name more =
    rw (u16-be16 (length list) (list ++ []), take_bytes-append list [])
      (names_loop-name_list name more)
  where
    list : List ℕ
    list = name_list name more

-- An extension of another kind.
pub record Extension : Type 0 where
  pub kind : ℕ
  pub body : List ℕ
  pub other_kind : (kind == ext_server_name) ≡ false

extensions : List Extension → List ℕ → List ℕ
unfolding be16 vec16
extensions [] s = s
extensions (x ∷ xs) s = be16 x.kind (vec16 x.body (extensions xs s))

extensions_loop-sni :
    (rounds : ℕ) (name more after : List ℕ)
    → extensions_loop (suc rounds) (sni_extension name more after) ≡ host_of name
unfolding extensions_loop sni_extension
extensions_loop-sni rounds name more after =
    rw
      (
        u16-be16 ext_server_name (vec16 body after),
        u16-vec16 body after,
        take_bytes-append body after,
      )
      (host_in-name_list name more)
  where
    body : List ℕ
    body = vec16 (name_list name more) []

extensions_loop-other :
    (rounds : ℕ) (x : Extension) (s : List ℕ)
    → extensions_loop (suc rounds) (be16 x.kind (vec16 x.body s)) ≡ extensions_loop rounds s
unfolding extensions_loop
extensions_loop-other rounds x s =
    rw
      (
        u16-be16 x.kind (vec16 x.body s),
        u16-vec16 x.body s,
        take_bytes-append x.body s,
        x.other_kind,
      )
      refl

extensions_loop-extensions :
    (rounds : ℕ) (before : List Extension) (name more after : List ℕ)
    → length before < rounds
    → extensions_loop rounds (extensions before (sni_extension name more after)) ≡ host_of name
unfolding extensions
extensions_loop-extensions zero before name more after h = absurd (omega arith)
extensions_loop-extensions (suc rounds) [] name more after h =
    extensions_loop-sni rounds name more after
extensions_loop-extensions (suc rounds) (x ∷ xs) name more after h =
    extensions_loop-other rounds x (extensions xs (sni_extension name more after))
    ∙ extensions_loop-extensions rounds xs name more after (omega arith)

-- A record of type handshake with a ClientHello and nothing behind it. `before` are the extensions in front
-- of `server_name`, `after` the bytes of those behind it.
pub record Hello : Type 0 where
  pub record_version : ℕ
  pub high : ℕ
  pub low : ℕ
  pub client_version : ℕ
  pub random : List ℕ
  pub session_id : List ℕ
  pub cipher_suites : List ℕ
  pub compression_methods : List ℕ
  pub before : List Extension
  pub name : List ℕ
  pub more_names : List ℕ
  pub after : List ℕ
  pub random_length : length random ≡ 32

all_extensions : Hello → List ℕ
unfolding extensions sni_extension
all_extensions h = extensions h.before (sni_extension h.name h.more_names h.after)

print_fields : Hello → List ℕ
unfolding be16 vec8 vec16 all_extensions
print_fields h =
    h.high
    ∷ be16 h.low (
        be16 h.client_version (
          h.random
          ++ vec8 h.session_id
              (vec16 h.cipher_suites (vec8 h.compression_methods (vec16 (all_extensions h) [])))))

pub print_record : Hello → List ℕ
unfolding be16 vec16 print_fields
print_record h =
    record_handshake ∷ be16 h.record_version (vec16 (handshake_client_hello ∷ print_fields h) [])

all_extensions-length :
    (before : List Extension) (s : List ℕ) → length before + length s ≤ length (extensions before s)
unfolding extensions be16 vec16
all_extensions-length [] s = omega arith
all_extensions-length (x ∷ xs) s =
    omega (arith, all_extensions-length xs s, length-append x.body (extensions xs s))

sni_extension-length : (name more after : List ℕ) → 0 < length (sni_extension name more after)
unfolding sni_extension be16
sni_extension-length name more after = omega arith

hello_fields-print_fields : (h : Hello) → hello_fields (print_fields h) ≡ host_of h.name
unfolding hello_fields print_fields u8
hello_fields-print_fields h =
    rw
      (
        u16-be16 h.low _,
        u16-be16 h.client_version _,
        take_random,
        skip_u8_vec-vec8 h.session_id _,
        skip_u16_vec-vec16 h.cipher_suites _,
        skip_u8_vec-vec8 h.compression_methods _,
        u16-vec16 (all_extensions h) [],
        take_bytes-append (all_extensions h) [],
      )
      loop
  where
    take_random : {s : List ℕ} → take_bytes 32 (h.random ++ s) ≡ some (h.random, s)
    take_random {s} =
        ap (λ n. take_bytes n (h.random ++ s)) (sym h.random_length) ∙ take_bytes-append h.random s

    loop : extensions_loop (length (all_extensions h)) (all_extensions h) ≡ host_of h.name
    loop =
        unfold all_extensions in
        extensions_loop-extensions (length (all_extensions h)) h.before h.name h.more_names h.after
          (omega (
            arith,
            all_extensions-length h.before (sni_extension h.name h.more_names h.after),
            sni_extension-length h.name h.more_names h.after,
          ))

fits :
    (body : List ℕ)
    → min (length body) (suc (suc (suc (length (be16 (length body) (body ++ []))))) - 5)
      ≡ length body
unfolding be16
fits body = omega (arith, length-append body [])

pub server_name-host_of : (h : Hello) → server_name (print_record h) ≡ host_of h.name
unfolding server_name record_fields client_hello print_record u8
server_name-host_of h =
    rw (u16-be16 h.record_version _, u16-vec16 body [], cut, take_bytes-append body [])
      (hello_fields-print_fields h)
  where
    body : List ℕ
    body = handshake_client_hello ∷ print_fields h

    cut : min (length body) (length (print_record h) - 5) ≡ length body
    cut = fits body
