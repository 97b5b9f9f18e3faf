-- ===== src/Upstream/Guard/Embedded.antt =====
-- The IPv6 addresses that carry an IPv4 address.
use cachic.Common.{ℕ, ◌+◌, ◌*◌, ◌/◌, ◌%◌, ◌≡◌, refl, subst, false, ◌==◌, ◌&&◌, ok, arith}
use cachic.Upstream.Guard.{
  loopback, unspecified, Ipv4Addr, Ipv6Addr, v6, check, check_v4, check_v6, check_v6_mapped,
  check_v6_embedded, embedded_v4, to_ipv4_mapped, zero_to_5, zero_to_6, v4_of_segments,
}
use cachic.Upstream.Guard.Blocks.{
  IsIpv4, number, in_blocks, refused_blocks, check_v4-blocks, passed,
}

abbrev high : Ipv4Addr → ℕ
high b = b.o0 * 256 + b.o1

abbrev low : Ipv4Addr → ℕ
low b = b.o2 * 256 + b.o3

-- ::ffff:a.b.c.d, ::a.b.c.d, 64:ff9b::a.b.c.d with any segments between, and 2002:ab:cd:: with any after.
pub data Embeds : Ipv6Addr → Ipv4Addr → Type 0 where
  mapped :
      (b : Ipv4Addr)
      → Embeds
          (record { s0 = 0; s1 = 0; s2 = 0; s3 = 0; s4 = 0; s5 = 65535; s6 = high b; s7 = low b })
          b
  compatible :
      (b : Ipv4Addr)
      → Embeds
          (record { s0 = 0; s1 = 0; s2 = 0; s3 = 0; s4 = 0; s5 = 0; s6 = high b; s7 = low b })
          b
  nat64 :
      (b : Ipv4Addr) (x2 x3 x4 x5 : ℕ)
      → Embeds
          (record {
            s0 = 100;
            s1 = 65435;
            s2 = x2;
            s3 = x3;
            s4 = x4;
            s5 = x5;
            s6 = high b;
            s7 = low b;
          })
          b
  six_to_four :
      (b : Ipv4Addr) (x3 x4 x5 x6 x7 : ℕ)
      → Embeds
          (record {
            s0 = 8194;
            s1 = high b;
            s2 = low b;
            s3 = x3;
            s4 = x4;
            s5 = x5;
            s6 = x6;
            s7 = x7;
          })
          b

v4_of_segments-embedded : (b : Ipv4Addr) → IsIpv4 b → v4_of_segments (high b) (low b) ≡ b
unfolding v4_of_segments
v4_of_segments-embedded b v = rw (q0, q1, q2, q3) refl
  where
    q0 : (b.o0 * 256 + b.o1) / 256 % 256 ≡ b.o0
    q0 = omega (arith, v.o0, v.o1)

    q1 : (b.o0 * 256 + b.o1) % 256 ≡ b.o1
    q1 = omega (arith, v.o0, v.o1)

    q2 : (b.o2 * 256 + b.o3) / 256 % 256 ≡ b.o2
    q2 = omega (arith, v.o2, v.o3)

    q3 : (b.o2 * 256 + b.o3) % 256 ≡ b.o3
    q3 = omega (arith, v.o2, v.o3)

embedded-check_v4 :
    (a : Ipv6Addr) (b : Ipv4Addr)
    → IsIpv4 b
    → Embeds a b
    → check_v6 a ≡ ok tt
    → check_v4 (v4_of_segments (high b) (low b)) ≡ ok tt
unfolding check_v6 check_v6_mapped check_v6_embedded embedded_v4 to_ipv4_mapped zero_to_5 zero_to_6
embedded-check_v4 a b v (mapped _) e = e
embedded-check_v4 a b v (compatible b') e =
    (passed ((high b' == 0) && (low b' == 1)) loopback _
      (passed ((high b' == 0) && (low b' == 0)) unspecified _ e).1).1
embedded-check_v4 a b v (nat64 _ x2 x3 x4 x5) e = e
embedded-check_v4 a b v (six_to_four _ x3 x4 x5 x6 x7) e = e

-- If the guard, with `allow_private` off, lets an IPv6 address through that carries an IPv4 address (IPv4-mapped,
-- IPv4-compatible, NAT64 or 6to4), then that address is in none of the refused IPv4 blocks.
pub check-Embeds :
    (a : Ipv6Addr) (b : Ipv4Addr)
    → IsIpv4 b
    → Embeds a b
    → check (v6 a) false ≡ ok tt
    → in_blocks (number b) refused_blocks ≡ false
unfolding check
check-Embeds a b v h e =
    (check_v4-blocks b v).0
      (subst (λ x. check_v4 x ≡ ok tt) (v4_of_segments-embedded b v) (embedded-check_v4 a b v h e))
