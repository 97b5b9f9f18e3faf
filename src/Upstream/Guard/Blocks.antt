-- ===== src/Upstream/Guard/Blocks.antt =====
-- The address blocks that the IPv4 guard refuses.
use cachic.Common.{
  ℕ, ◌+◌, ◌*◌, ◌≡◌, ◌↔◌, refl, Bool, true, false, ◌&&◌, ◌||◌, List, [], ◌∷◌, ltb, leb, ◌==◌,
  if◌then◌else◌, Result, ok, err, arith,
}
use cachic.Common.Words.{IsByte}
use cachic.Upstream.Guard.{
  Refusal, documentation, Ipv4Addr, check_v4, is_unspecified, is_loopback, is_private,
  is_link_local, is_multicast, is_broadcast, has_prefix,
}

pub record IsIpv4 (a : Ipv4Addr) : Type 0 where
  pub o0 : IsByte a.o0
  pub o1 : IsByte a.o1
  pub o2 : IsByte a.o2
  pub o3 : IsByte a.o3

-- An address as a 32-bit number, and a block as its first address and the number of its addresses.
abbrev pub number : Ipv4Addr → ℕ
number a = ((a.o0 * 256 + a.o1) * 256 + a.o2) * 256 + a.o3

abbrev pub in_block : ℕ → ℕ × ℕ → Bool
in_block n (first, size) = leb first n && ltb n (first + size)

abbrev pub in_blocks : ℕ → List (ℕ × ℕ) → Bool
in_blocks n [] = false
in_blocks n (b ∷ rest) = in_block n b || in_blocks n rest

-- 0.0.0.0/8, 10.0.0.0/8, 100.64.0.0/10, 127.0.0.0/8, 169.254.0.0/16, 172.16.0.0/12, 192.0.0.0/24,
-- 192.0.2.0/24, 192.168.0.0/16, 198.18.0.0/15, 198.51.100.0/24, 203.0.113.0/24 and 224.0.0.0/3.
abbrev pub refused_blocks : List (ℕ × ℕ)
refused_blocks =
    (0, 16777216)
    ∷ (167772160, 16777216)
    ∷ (1681915904, 4194304)
    ∷ (2130706432, 16777216)
    ∷ (2851995648, 65536)
    ∷ (2886729728, 1048576)
    ∷ (3221225472, 256)
    ∷ (3221225984, 256)
    ∷ (3232235520, 65536)
    ∷ (3323068416, 131072)
    ∷ (3325256704, 256)
    ∷ (3405803776, 256)
    ∷ (3758096384, 536870912)
    ∷ []

pub passed :
    (c : Bool) (e : Refusal) (rest : Result (Unit {0}) Refusal)
    → (if c then err e else rest) ≡ ok tt
    → (c ≡ false) × (rest ≡ ok tt)
passed true e rest h = cc
passed false e rest h = (refl, h)

passes :
    (c : Bool) (e : Refusal) (rest : Result (Unit {0}) Refusal)
    → c ≡ false
    → rest ≡ ok tt
    → (if c then err e else rest) ≡ ok tt
passes c e rest h k = rw h k

neither : (a b : Bool) → a ≡ false → b ≡ false → (a || b) ≡ false
neither a b h k = rw (h, k) refl

nor : (a b : Bool) → (a || b) ≡ false → (a ≡ false) × (b ≡ false)
nor true b h = cc
nor false b h = (refl, h)

module _ (a : Ipv4Addr) (v : IsIpv4 a) where
  -- Each test of the guard against the blocks that it stands for.
  outside_zero : ((a.o0 == 0) || leb 240 a.o0) ≡ false → in_block (number a) (0, 16777216) ≡ false
  unfolding is_unspecified is_loopback is_private is_link_local is_multicast is_broadcast has_prefix
  outside_zero h0 = ground (arith, v.o0, v.o1, v.o2, v.o3)

  outside_ten : (is_private a) ≡ false → in_block (number a) (167772160, 16777216) ≡ false
  unfolding is_unspecified is_loopback is_private is_link_local is_multicast is_broadcast has_prefix
  outside_ten h0 = ground (arith, v.o0, v.o1, v.o2, v.o3)

  outside_shared :
      ((a.o0 == 100) && (leb 64 a.o1 && ltb a.o1 128)) ≡ false
      → in_block (number a) (1681915904, 4194304) ≡ false
  unfolding is_unspecified is_loopback is_private is_link_local is_multicast is_broadcast has_prefix
  outside_shared h0 = ground (arith, v.o0, v.o1, v.o2, v.o3)

  outside_loopback : (is_loopback a) ≡ false → in_block (number a) (2130706432, 16777216) ≡ false
  unfolding is_unspecified is_loopback is_private is_link_local is_multicast is_broadcast has_prefix
  outside_loopback h0 = ground (arith, v.o0, v.o1, v.o2, v.o3)

  outside_link_local : (is_link_local a) ≡ false → in_block (number a) (2851995648, 65536) ≡ false
  unfolding is_unspecified is_loopback is_private is_link_local is_multicast is_broadcast has_prefix
  outside_link_local h0 = ground (arith, v.o0, v.o1, v.o2, v.o3)

  outside_sixteen : (is_private a) ≡ false → in_block (number a) (2886729728, 1048576) ≡ false
  unfolding is_unspecified is_loopback is_private is_link_local is_multicast is_broadcast has_prefix
  outside_sixteen h0 = ground (arith, v.o0, v.o1, v.o2, v.o3)

  outside_first :
      (has_prefix a documentation) ≡ false → in_block (number a) (3221225472, 256) ≡ false
  unfolding is_unspecified is_loopback is_private is_link_local is_multicast is_broadcast has_prefix
  outside_first h0 = ground (arith, v.o0, v.o1, v.o2, v.o3)

  outside_second :
      (has_prefix a documentation) ≡ false → in_block (number a) (3221225984, 256) ≡ false
  unfolding is_unspecified is_loopback is_private is_link_local is_multicast is_broadcast has_prefix
  outside_second h0 = ground (arith, v.o0, v.o1, v.o2, v.o3)

  outside_private : (is_private a) ≡ false → in_block (number a) (3232235520, 65536) ≡ false
  unfolding is_unspecified is_loopback is_private is_link_local is_multicast is_broadcast has_prefix
  outside_private h0 = ground (arith, v.o0, v.o1, v.o2, v.o3)

  outside_benchmark :
      ((a.o0 == 198) && (leb 18 a.o1 && ltb a.o1 20)) ≡ false
      → in_block (number a) (3323068416, 131072) ≡ false
  unfolding is_unspecified is_loopback is_private is_link_local is_multicast is_broadcast has_prefix
  outside_benchmark h0 = ground (arith, v.o0, v.o1, v.o2, v.o3)

  outside_third :
      (has_prefix a documentation) ≡ false → in_block (number a) (3325256704, 256) ≡ false
  unfolding is_unspecified is_loopback is_private is_link_local is_multicast is_broadcast has_prefix
  outside_third h0 = ground (arith, v.o0, v.o1, v.o2, v.o3)

  outside_fourth :
      (has_prefix a documentation) ≡ false → in_block (number a) (3405803776, 256) ≡ false
  unfolding is_unspecified is_loopback is_private is_link_local is_multicast is_broadcast has_prefix
  outside_fourth h0 = ground (arith, v.o0, v.o1, v.o2, v.o3)

  outside_last :
      (is_multicast a || is_broadcast a) ≡ false
      → ((a.o0 == 0) || leb 240 a.o0) ≡ false
      → in_block (number a) (3758096384, 536870912) ≡ false
  unfolding is_unspecified is_loopback is_private is_link_local is_multicast is_broadcast has_prefix
  outside_last h0 h1 = ground (arith, v.o0, v.o1, v.o2, v.o3)

  not_unspecified : in_block (number a) (0, 16777216) ≡ false → (is_unspecified a) ≡ false
  unfolding is_unspecified is_loopback is_private is_link_local is_multicast is_broadcast has_prefix
  not_unspecified h0 = ground (arith, v.o0, v.o1, v.o2, v.o3)

  not_loopback : in_block (number a) (2130706432, 16777216) ≡ false → (is_loopback a) ≡ false
  unfolding is_unspecified is_loopback is_private is_link_local is_multicast is_broadcast has_prefix
  not_loopback h0 = ground (arith, v.o0, v.o1, v.o2, v.o3)

  not_private :
      in_block (number a) (167772160, 16777216) ≡ false
      → in_block (number a) (2886729728, 1048576) ≡ false
      → in_block (number a) (3232235520, 65536) ≡ false
      → (is_private a) ≡ false
  unfolding is_unspecified is_loopback is_private is_link_local is_multicast is_broadcast has_prefix
  not_private h0 h1 h2 = ground (arith, v.o0, v.o1, v.o2, v.o3)

  not_link_local : in_block (number a) (2851995648, 65536) ≡ false → (is_link_local a) ≡ false
  unfolding is_unspecified is_loopback is_private is_link_local is_multicast is_broadcast has_prefix
  not_link_local h0 = ground (arith, v.o0, v.o1, v.o2, v.o3)

  not_multicast :
      in_block (number a) (3758096384, 536870912) ≡ false
      → (is_multicast a || is_broadcast a) ≡ false
  unfolding is_unspecified is_loopback is_private is_link_local is_multicast is_broadcast has_prefix
  not_multicast h0 = ground (arith, v.o0, v.o1, v.o2, v.o3)

  not_shared :
      in_block (number a) (1681915904, 4194304) ≡ false
      → ((a.o0 == 100) && (leb 64 a.o1 && ltb a.o1 128)) ≡ false
  unfolding is_unspecified is_loopback is_private is_link_local is_multicast is_broadcast has_prefix
  not_shared h0 = ground (arith, v.o0, v.o1, v.o2, v.o3)

  not_zero :
      in_block (number a) (0, 16777216) ≡ false
      → in_block (number a) (3758096384, 536870912) ≡ false
      → ((a.o0 == 0) || leb 240 a.o0) ≡ false
  unfolding is_unspecified is_loopback is_private is_link_local is_multicast is_broadcast has_prefix
  not_zero h0 h1 = ground (arith, v.o0, v.o1, v.o2, v.o3)

  not_documentation :
      in_block (number a) (3221225472, 256) ≡ false
      → in_block (number a) (3221225984, 256) ≡ false
      → in_block (number a) (3325256704, 256) ≡ false
      → in_block (number a) (3405803776, 256) ≡ false
      → (has_prefix a documentation) ≡ false
  unfolding is_unspecified is_loopback is_private is_link_local is_multicast is_broadcast has_prefix
  not_documentation h0 h1 h2 h3 = ground (arith, v.o0, v.o1, v.o2, v.o3)

  not_benchmark :
      in_block (number a) (3323068416, 131072) ≡ false
      → ((a.o0 == 198) && (leb 18 a.o1 && ltb a.o1 20)) ≡ false
  unfolding is_unspecified is_loopback is_private is_link_local is_multicast is_broadcast has_prefix
  not_benchmark h0 = ground (arith, v.o0, v.o1, v.o2, v.o3)

  outside : check_v4 a ≡ ok tt → in_blocks (number a) refused_blocks ≡ false
  unfolding check_v4
  outside e =
      let (c0, e0) = passed _ _ _ e in
      let (c1, e1) = passed _ _ _ e0 in
      let (c2, e2) = passed _ _ _ e1 in
      let (c3, e3) = passed _ _ _ e2 in
      let (c4, e4) = passed _ _ _ e3 in
      let (c5, e5) = passed _ _ _ e4 in
      let (c6, e6) = passed _ _ _ e5 in
      let (c7, e7) = passed _ _ _ e6 in
      let (c8, e8) = passed _ _ _ e7 in
      neither _ _ (outside_zero c6) (
        neither _ _ (outside_ten c2) (
          neither _ _ (outside_shared c5) (
            neither _ _ (outside_loopback c1) (
              neither _ _ (outside_link_local c3) (
                neither _ _ (outside_sixteen c2) (
                  neither _ _ (outside_first c7) (
                    neither _ _ (outside_second c7) (
                      neither _ _ (outside_private c2) (
                        neither _ _ (outside_benchmark c8) (
                          neither _ _ (outside_third c7) (
                            neither _ _ (outside_fourth c7)
                              (neither _ _ (outside_last c4 c6) (refl)))))))))))))

  allowed : in_blocks (number a) refused_blocks ≡ false → check_v4 a ≡ ok tt
  unfolding check_v4
  allowed e =
      let (b0, e0) = nor _ _ e in
      let (b1, e1) = nor _ _ e0 in
      let (b2, e2) = nor _ _ e1 in
      let (b3, e3) = nor _ _ e2 in
      let (b4, e4) = nor _ _ e3 in
      let (b5, e5) = nor _ _ e4 in
      let (b6, e6) = nor _ _ e5 in
      let (b7, e7) = nor _ _ e6 in
      let (b8, e8) = nor _ _ e7 in
      let (b9, e9) = nor _ _ e8 in
      let (b10, e10) = nor _ _ e9 in
      let (b11, e11) = nor _ _ e10 in
      let (b12, e12) = nor _ _ e11 in
      passes _ _ _ (not_unspecified b0) (
        passes _ _ _ (not_loopback b3) (
          passes _ _ _ (not_private b1 b5 b8) (
            passes _ _ _ (not_link_local b4) (
              passes _ _ _ (not_multicast b12) (
                passes _ _ _ (not_shared b2) (
                  passes _ _ _ (not_zero b0 b12) (
                    passes _ _ _ (not_documentation b6 b7 b10 b11)
                      (passes _ _ _ (not_benchmark b9) (refl)))))))))

-- The guard lets an IPv4 address through exactly when it is in none of the blocks.
pub check_v4-blocks :
    (a : Ipv4Addr) → IsIpv4 a → (check_v4 a ≡ ok tt) ↔ (in_blocks (number a) refused_blocks ≡ false)
check_v4-blocks a v = (outside a v, allowed a v)
