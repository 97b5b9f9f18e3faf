-- ===== src/Sni/ClientHello/Answers.antt =====
-- What `server_name` answers: a name that can be resolved, and one that the declared record decides.
use cachic.Common.{
  ℕ, zero, suc, ◌-◌, min, ◌≡◌, refl, ◌∙◌, Bool, true, false, Option, none, some, List, [], ◌∷◌,
  ◌==◌, if◌then◌else◌, ◌>>?◌, >>?-eq-some, length, arith,
}
use cachic.Common.Text.{is_ascii, is_empty, to_ascii_lowercase}
use cachic.Common.Text.Laws.{to_ascii_lowercase_idem}
use cachic.Sni.ClientHello.{
  take_bytes, u8, u16, names_loop, host_of, host_in, extensions_loop, skip_u8_vec, skip_u16_vec,
  hello_fields, record_fields, client_hello, server_name, record_handshake, name_type_host,
  ext_server_name, handshake_client_hello,
}

-- Not empty, ASCII and in lower case.
pub record IsHost (host : List ℕ) : Type 0 where
  pub some_name : is_empty host ≡ false
  pub ascii : is_ascii host ≡ true
  pub lowered : to_ascii_lowercase host ≡ host

is_ascii-lowercase : (s : List ℕ) → is_ascii s ≡ true → is_ascii (to_ascii_lowercase s) ≡ true
unfolding is_ascii to_ascii_lowercase
is_ascii-lowercase [] h = refl
is_ascii-lowercase (c ∷ s) h = ground (arith, is_ascii-lowercase s)

is_empty-lowercase : (s : List ℕ) → is_empty (to_ascii_lowercase s) ≡ is_empty s
unfolding is_empty to_ascii_lowercase
is_empty-lowercase [] = refl
is_empty-lowercase (c ∷ s) = refl

host_of-IsHost : (name : List ℕ) {host : List ℕ} → host_of name ≡ some host → IsHost host
host_of-IsHost name {host} h =
    let (full, ascii, e) = parts in
    rw (← e) (record {
      some_name = is_empty-lowercase name ∙ full;
      ascii = is_ascii-lowercase name ascii;
      lowered = to_ascii_lowercase_idem name;
    })
  where
    parts : (is_empty name ≡ false) × (is_ascii name ≡ true) × (to_ascii_lowercase name ≡ host)
    parts = unfold host_of in (ground arith, ground arith, ground arith)

if-some :
    (b : Bool) (x y : Option (List ℕ)) {host : List ℕ}
    → (if b then x else y) ≡ some host
    → (x ≡ some host → IsHost host)
    → (y ≡ some host → IsHost host)
    → IsHost host
if-some true x y h f g = f h
if-some false x y h f g = g h

names_loop-IsHost :
    (rounds : ℕ) (n : List ℕ) {host : List ℕ} → names_loop rounds n ≡ some host → IsHost host
unfolding names_loop
names_loop-IsHost zero n h = cc
names_loop-IsHost (suc rounds) n h =
    let ((name_type, n1), _, h1) = >>?-eq-some (u8 n) _ h in
    let ((name_len, n2), _, h2) = >>?-eq-some (u16 n1) _ h1 in
    let ((name, n3), _, h3) = >>?-eq-some (take_bytes name_len n2) _ h2 in
    if-some (name_type == name_type_host) (host_of name) (names_loop rounds n3) h3
      (λ e. host_of-IsHost name e) (λ e. names_loop-IsHost rounds n3 e)

host_in-IsHost : (ext : List ℕ) {host : List ℕ} → host_in ext ≡ some host → IsHost host
unfolding host_in
host_in-IsHost ext h =
    let ((list_len, s), _, h1) = >>?-eq-some (u16 ext) _ h in
    let ((list, r), _, h2) = >>?-eq-some (take_bytes list_len s) _ h1 in
    names_loop-IsHost (length list) list h2

extensions_loop-IsHost :
    (rounds : ℕ) (e : List ℕ) {host : List ℕ} → extensions_loop rounds e ≡ some host → IsHost host
unfolding extensions_loop
extensions_loop-IsHost zero e h = cc
extensions_loop-IsHost (suc rounds) e h =
    let ((kind, e1), _, h1) = >>?-eq-some (u16 e) _ h in
    let ((len, e2), _, h2) = >>?-eq-some (u16 e1) _ h1 in
    let ((ext, e3), _, h3) = >>?-eq-some (take_bytes len e2) _ h2 in
    if-some (kind == ext_server_name) (host_in ext) (extensions_loop rounds e3) h3
      (λ x. host_in-IsHost ext x) (λ x. extensions_loop-IsHost rounds e3 x)

-- What every continuation answers, the whole answers.
bind-IsHost {ℓ} :
    {A : Type ℓ} (m : Option A) (f : A → Option (List ℕ)) {host : List ℕ}
    → ((a : A) → f a ≡ some host → IsHost host)
    → (m >>? f) ≡ some host
    → IsHost host
bind-IsHost (some a) f each h = each a h
bind-IsHost none f each h = cc

hello_fields-IsHost : (h1 : List ℕ) {host : List ℕ} → hello_fields h1 ≡ some host → IsHost host
unfolding hello_fields
hello_fields-IsHost h1 = bind-IsHost (u8 h1) _ (λ (hi, h2). bind-IsHost (u16 h2) _ (λ (lo, h3).
    bind-IsHost (u16 h3) _ (λ (version, h4). bind-IsHost (take_bytes 32 h4) _ (λ (random, h5).
      bind-IsHost (skip_u8_vec h5) _ (λ h6. bind-IsHost (skip_u16_vec h6) _ (λ h7.
        bind-IsHost (skip_u8_vec h7) _ (λ h8. bind-IsHost (u16 h8) _ (λ (extensions_len, h9).
          bind-IsHost (take_bytes extensions_len h9) _
            (λ (extensions, r). extensions_loop-IsHost (length extensions) extensions)))))))))

client_hello-IsHost : (h : List ℕ) {host : List ℕ} → client_hello h ≡ some host → IsHost host
unfolding client_hello
client_hello-IsHost h = bind-IsHost (u8 h) _ (λ (message, h1) e.
    if-some (message == handshake_client_hello) (hello_fields h1) none e (hello_fields-IsHost h1)
      (λ x. cc))

record_fields-IsHost :
    (r1 : List ℕ) (n : ℕ) {host : List ℕ} → record_fields n r1 ≡ some host → IsHost host
unfolding record_fields
record_fields-IsHost r1 n = bind-IsHost (u16 r1) _ (λ (version, r2).
    bind-IsHost (u16 r2) _ (λ (record_len, r3).
      bind-IsHost (take_bytes (min record_len (n - 5)) r3) _
        (λ (body, r). client_hello-IsHost body)))

-- A name that `server_name` returns, from any bytes, is not empty, is ASCII and is in lower case.
pub server_name-IsHost :
    (bytes : List ℕ) {host : List ℕ} → server_name bytes ≡ some host → IsHost host
unfolding server_name
server_name-IsHost bytes = bind-IsHost (u8 bytes) _ (λ (kind, r1) e.
    if-some (kind == record_handshake) (record_fields (length bytes) r1) none e
      (record_fields-IsHost r1 (length bytes)) (λ x. cc))
