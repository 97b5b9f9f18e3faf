-- ===== src/Upstream/Guard.antt =====
-- crates/cachic/src/upstream/guard.rs: which addresses may be an upstream. An IPv4 address is its four octets, an
-- IPv6 address its eight segments; `Ipv4Addr` and `Ipv6Addr` of the standard library are written out.
pub mod Blocks
pub mod Embedded
use cachic.Common.{
  ℕ, ◌+◌, ◌-◌, ◌*◌, ◌/◌, ◌%◌, ◌≤◌, ◌<◌, Bool, true, false, not, ◌&&◌, ◌||◌, Option, none, some,
  List, [], ◌∷◌, ltb, leb, ◌==◌, if◌then◌else◌, Result, ok, err,
}

pub data Refusal : Type 0 where
  loopback private link_local unspecified multicast_or_broadcast reserved : Refusal

pub record Ipv4Addr : Type 0 where
  pub o0 : ℕ
  pub o1 : ℕ
  pub o2 : ℕ
  pub o3 : ℕ

pub record Ipv6Addr : Type 0 where
  pub s0 : ℕ
  pub s1 : ℕ
  pub s2 : ℕ
  pub s3 : ℕ
  pub s4 : ℕ
  pub s5 : ℕ
  pub s6 : ℕ
  pub s7 : ℕ

pub data IpAddr : Type 0 where
  v4 : Ipv4Addr → IpAddr
  v6 : Ipv6Addr → IpAddr

unfoldable pub is_unspecified : Ipv4Addr → Bool
is_unspecified a = (a.o0 == 0) && ((a.o1 == 0) && ((a.o2 == 0) && (a.o3 == 0)))

unfoldable pub is_loopback : Ipv4Addr → Bool
is_loopback a = a.o0 == 127

unfoldable pub is_private : Ipv4Addr → Bool
is_private a =
    (a.o0 == 10)
    || (((a.o0 == 172) && (leb 16 a.o1 && leb a.o1 31)) || ((a.o0 == 192) && (a.o1 == 168)))

unfoldable pub is_link_local : Ipv4Addr → Bool
is_link_local a = (a.o0 == 169) && (a.o1 == 254)

unfoldable pub is_multicast : Ipv4Addr → Bool
is_multicast a = leb 224 a.o0 && leb a.o0 239

unfoldable pub is_broadcast : Ipv4Addr → Bool
is_broadcast a = (a.o0 == 255) && ((a.o1 == 255) && ((a.o2 == 255) && (a.o3 == 255)))

-- The documentation blocks of three octets, tried in turn, and what follows the loop.
unfoldable pub has_prefix : Ipv4Addr → List (ℕ × ℕ × ℕ) → Bool
has_prefix a [] = false
has_prefix a ((p0, p1, p2) ∷ rest) =
    ((a.o0 == p0) && ((a.o1 == p1) && (a.o2 == p2))) || has_prefix a rest

abbrev pub documentation : List (ℕ × ℕ × ℕ)
documentation = (192, 0, 0) ∷ (192, 0, 2) ∷ (198, 51, 100) ∷ (203, 0, 113) ∷ []

unfoldable pub check_v4 : Ipv4Addr → Result (Unit {0}) Refusal
unfolding is_unspecified is_loopback is_private is_link_local is_multicast is_broadcast has_prefix
check_v4 a =
    if is_unspecified a
    then err unspecified
    else if is_loopback a
    then err loopback
    else if is_private a
    then err private
    else if is_link_local a
    then err link_local
    else if is_multicast a || is_broadcast a
    then err multicast_or_broadcast
    else if (a.o0 == 100) && (leb 64 a.o1 && ltb a.o1 128)
    then err reserved
    else if (a.o0 == 0) || leb 240 a.o0
    then err reserved
    else if has_prefix a documentation
    then err reserved
    else if (a.o0 == 198) && (leb 18 a.o1 && ltb a.o1 20)
    then err reserved
    else ok tt

-- `Ipv4Addr::new((hi >> 8) as u8, hi as u8, (lo >> 8) as u8, lo as u8)`.
unfoldable pub v4_of_segments : ℕ → ℕ → Ipv4Addr
v4_of_segments hi lo = record {
  o0 = hi / 256 % 256;
  o1 = hi % 256;
  o2 = lo / 256 % 256;
  o3 = lo % 256;
}

-- `segments[..k]` is all zero, for k = 5 and 6.
unfoldable pub zero_to_5 : Ipv6Addr → Bool
zero_to_5 a = (a.s0 == 0) && ((a.s1 == 0) && ((a.s2 == 0) && ((a.s3 == 0) && (a.s4 == 0))))

unfoldable pub zero_to_6 : Ipv6Addr → Bool
unfolding zero_to_5
zero_to_6 a = zero_to_5 a && (a.s5 == 0)

unfoldable pub to_ipv4_mapped : Ipv6Addr → Option Ipv4Addr
unfolding zero_to_5 v4_of_segments
to_ipv4_mapped a = if zero_to_5 a && (a.s5 == 65535) then some (v4_of_segments a.s6 a.s7) else none

unfoldable pub embedded_v4 : Ipv6Addr → Option Ipv4Addr
unfolding zero_to_6 v4_of_segments
embedded_v4 a =
    if zero_to_6 a
    then some (v4_of_segments a.s6 a.s7)
    else if (a.s0 == 100) && (a.s1 == 65435)
    then some (v4_of_segments a.s6 a.s7)
    else if a.s0 == 8194
    then some (v4_of_segments a.s1 a.s2)
    else none

-- The rest of `check_v6`, with no address embedded. A mask of leading ones is a division.
unfoldable pub check_v6_alone : Ipv6Addr → Result (Unit {0}) Refusal
check_v6_alone a =
    if (a.s0 == 8193) && (a.s1 == 0)
    then err reserved
    else if a.s0 / 512 * 512 == 64512
    then err private
    else if a.s0 / 64 * 64 == 65152
    then err link_local
    else if (a.s0 == 8193) && (a.s1 == 3512)
    then err reserved
    else ok tt

unfoldable pub check_v6_embedded : Ipv6Addr → Option Ipv4Addr → Result (Unit {0}) Refusal
unfolding check_v4 check_v6_alone
check_v6_embedded a (some b) = check_v4 b
check_v6_embedded a none = check_v6_alone a

unfoldable pub check_v6_mapped : Ipv6Addr → Option Ipv4Addr → Result (Unit {0}) Refusal
unfolding check_v4 check_v6_embedded embedded_v4
check_v6_mapped a (some b) = check_v4 b
check_v6_mapped a none = check_v6_embedded a (embedded_v4 a)

unfoldable pub check_v6 : Ipv6Addr → Result (Unit {0}) Refusal
unfolding zero_to_6 check_v6_mapped to_ipv4_mapped
check_v6 a =
    if zero_to_6 a && ((a.s6 == 0) && (a.s7 == 0))
    then err unspecified
    else if zero_to_6 a && ((a.s6 == 0) && (a.s7 == 1))
    then err loopback
    else if a.s0 / 256 == 255
    then err multicast_or_broadcast
    else check_v6_mapped a (to_ipv4_mapped a)

unfoldable pub check : IpAddr → Bool → Result (Unit {0}) Refusal
unfolding check_v4 check_v6
check a true = ok tt
check (v4 a) false = check_v4 a
check (v6 a) false = check_v6 a
