-- ===== src/Sni/ClientHello.antt =====
-- crates/cachic/src/sni/clienthello.rs: the server name in a TLS ClientHello. A `Reader` is the list of
-- bytes from its position on. The two loops take as many rounds as there are bytes, which is enough: a
-- round takes four bytes, or three, at least.
pub mod Fuel
pub mod Answers
pub mod Named
pub mod RoundTrip
use cachic.Common.{
  ℕ, zero, suc, ◌+◌, ◌-◌, ◌*◌, min, Bool, true, false, not, ◌||◌, Option, none, some, List, [], ◌∷◌,
  ◌++◌, ltb, ◌==◌, if◌then◌else◌, ◌>>?◌, length, take, drop,
}
use cachic.Common.Text.{utf8, is_ascii, is_empty, to_ascii_lowercase}

abbrev pub record_handshake : ℕ
record_handshake = 0x16

abbrev pub handshake_client_hello : ℕ
handshake_client_hello = 0x01

abbrev pub ext_server_name : ℕ
ext_server_name = 0x0000

abbrev pub name_type_host : ℕ
name_type_host = 0x00

-- A method of `Reader`: its value and the new position, or `None`.
abbrev pub Read : Type 0 → Type 0
Read A = List ℕ → Option (A × List ℕ)

unfoldable pub take_bytes : ℕ → Read (List ℕ)
take_bytes n s = if ltb (length s) n then none else some (take n s, drop n s)

unfoldable pub u8 : Read ℕ
u8 [] = none
u8 (a ∷ s) = some (a, s)

-- `u16::from_be_bytes`.
unfoldable pub u16 : Read ℕ
u16 [] = none
u16 (a ∷ []) = none
u16 (a ∷ b ∷ s) = some (a * 256 + b, s)

unfoldable pub skip_u8_vec : List ℕ → Option (List ℕ)
skip_u8_vec s = u8 s >>? λ (n, s1). take_bytes n s1 >>? λ (b, s2). some s2

unfoldable pub skip_u16_vec : List ℕ → Option (List ℕ)
skip_u16_vec s = u16 s >>? λ (n, s1). take_bytes n s1 >>? λ (b, s2). some s2

unfoldable pub looks_like_tls : List ℕ → Bool
looks_like_tls [] = false
looks_like_tls (a ∷ s) = a == record_handshake

unfoldable pub record_length : List ℕ → Option ℕ
record_length (a ∷ b ∷ c ∷ d ∷ e ∷ s) = some (d * 256 + e + 5)
record_length s = none

-- The name of a `host_name` entry.
unfoldable pub host_of : List ℕ → Option (List ℕ)
host_of name =
    if utf8 name
    then (if is_empty name || not (is_ascii name) then none else some (to_ascii_lowercase name))
    else none

-- `while let (Some(name_type), Some(name_len)) = (n.u8(), n.u16())`.
unfoldable pub names_loop : ℕ → List ℕ → Option (List ℕ)
names_loop zero n = none
names_loop (suc rounds) n = u8 n >>? λ (name_type, n1). u16 n1 >>? λ (name_len, n2).
    take_bytes name_len n2 >>? λ (name, n3).
    let more = names_loop rounds n3 in if name_type == name_type_host then host_of name else more

unfoldable pub host_in : List ℕ → Option (List ℕ)
unfolding names_loop
host_in ext = u16 ext >>? λ (list_len, s).
    take_bytes list_len s >>? λ (list, _). names_loop (length list) list

-- `while let (Some(kind), Some(len)) = (e.u16(), e.u16())`.
unfoldable pub extensions_loop : ℕ → List ℕ → Option (List ℕ)
extensions_loop zero e = none
extensions_loop (suc rounds) e = u16 e >>? λ (kind, e1). u16 e1 >>? λ (len, e2).
    take_bytes len e2 >>? λ (ext, e3).
    let more = extensions_loop rounds e3 in if kind == ext_server_name then host_in ext else more

-- The handshake message behind its type.
unfoldable pub hello_fields : List ℕ → Option (List ℕ)
unfolding skip_u8_vec skip_u16_vec extensions_loop host_in
hello_fields h1 = u8 h1 >>? λ (hi, h2). u16 h2 >>? λ (lo, h3). u16 h3 >>? λ (version, h4).
    take_bytes 32 h4 >>? λ (random, h5). skip_u8_vec h5 >>? λ h6. skip_u16_vec h6 >>? λ h7.
    skip_u8_vec h7 >>? λ h8. u16 h8 >>? λ (extensions_len, h9).
    take_bytes extensions_len h9 >>? λ (extensions, _).
    extensions_loop (length extensions) extensions

-- The handshake message: from its type on.
unfoldable pub client_hello : List ℕ → Option (List ℕ)
unfolding hello_fields
client_hello h =
    u8 h >>? λ (message, h1). if message == handshake_client_hello then hello_fields h1 else none

-- The record behind its type, of a buffer of `n` bytes.
unfoldable pub record_fields : ℕ → List ℕ → Option (List ℕ)
unfolding client_hello
record_fields n r1 = u16 r1 >>? λ (version, r2). u16 r2 >>? λ (record_len, r3).
    take_bytes (min record_len (n - 5)) r3 >>? λ (body, _). client_hello body

unfoldable pub server_name : List ℕ → Option (List ℕ)
unfolding record_fields
server_name bytes = u8 bytes >>? λ (kind, r1).
    if kind == record_handshake then record_fields (length bytes) r1 else none
