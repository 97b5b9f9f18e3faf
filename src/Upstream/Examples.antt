-- ===== src/Upstream/Examples.antt =====
-- The theorems on the client at concrete inputs.
use cachic.Common.{
  ℕ, zero, suc, ◌≤◌, ◌≡◌, ◌↔◌, refl, true, false, some, [], ◌∷◌, Result, ok, err, arith,
}
use cachic.Upstream.Client.{
  SendError, UpstreamError, UpstreamResponse, Incoming, ClientConfig, fetch_range,
  default_max_body_bytes,
}
use cachic.Upstream.Client.Bounded.{IsAccepted, fetch_range-IsAccepted}
use cachic.Upstream.Guard.{Ipv4Addr, v6, check, check_v4}
use cachic.Upstream.Guard.Blocks.{IsIpv4, number, in_blocks, refused_blocks, check_v4-blocks}
use cachic.Upstream.Guard.Embedded.{six_to_four, check-Embeds}

-- The first attempt times out, the second is answered.
abbrev send : ℕ → Result Incoming SendError
send zero = err (record { is_timeout = true; is_connect = false; is_request = false })
send (suc n) = ok (record {
  status = 206;
  headers = [];
  declared = some 3;
  chunks = ok (1 ∷ 2 ∷ []) ∷ ok (3 ∷ []) ∷ [];
})

abbrev config : ClientConfig
config = record { retries = 1; max_body_bytes = default_max_body_bytes }

abbrev fetched : UpstreamResponse
fetched = record { status = 206; headers = []; body = 1 ∷ 2 ∷ 3 ∷ [] }

fetch_once : fetch_range config (ok tt) 0 2 send ≡ ok fetched
unfolding fetch_range
fetch_once = refl

fetch_range-IsAccepted_example :
    ◌≡◌ {A = Result (Unit {0}) UpstreamError} (ok tt) (ok tt)
    × (k : ℕ) × (i : Incoming) × (k ≤ 1)
    × (send k ≡ ok i)
    × IsAccepted default_max_body_bytes 0 2 i fetched
fetch_range-IsAccepted_example = fetch_range-IsAccepted config (ok tt) 0 2 send fetch_once

abbrev public_dns : Ipv4Addr
public_dns = record { o0 = 9; o1 = 9; o2 = 9; o3 = 9 }

public_dns-IsIpv4 : IsIpv4 public_dns
public_dns-IsIpv4 = record {
  o0 = omega arith;
  o1 = omega arith;
  o2 = omega arith;
  o3 = omega arith;
}

check_v4-blocks_example :
    (check_v4 public_dns ≡ ok tt) ↔ (in_blocks (number public_dns) refused_blocks ≡ false)
check_v4-blocks_example = check_v4-blocks public_dns public_dns-IsIpv4

check_public :
    check
      (v6 (record { s0 = 8194; s1 = 2313; s2 = 2313; s3 = 0; s4 = 0; s5 = 0; s6 = 0; s7 = 1 }))
      false
    ≡ ok tt
unfolding check
check_public = refl

check-Embeds_example : in_blocks (number public_dns) refused_blocks ≡ false
check-Embeds_example =
    check-Embeds _ public_dns public_dns-IsIpv4 (six_to_four public_dns 0 0 0 0 1) check_public
