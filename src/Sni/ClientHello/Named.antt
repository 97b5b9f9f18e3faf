-- ===== src/Sni/ClientHello/Named.antt =====
-- Which names `host_of` accepts.
use cachic.Common.{ℕ, ◌<◌, ◌≡◌, ◌≢◌, ◌↔◌, refl, true, some, All, List, [], ◌∷◌, arith}
use cachic.Common.Text.{is_ascii, is_empty, to_ascii_lowercase}
use cachic.Common.Text.Laws.{utf8-ascii}
use cachic.Sni.ClientHello.{host_of}

-- Not empty, and ASCII throughout.
abbrev pub IsNamed : List ℕ → Type 0
IsNamed name = (name ≢ []) × (All (λ c. c < 128) name)

is_ascii_iff : (s : List ℕ) → (is_ascii s ≡ true) ↔ All (λ c. c < 128) s
unfolding is_ascii
is_ascii_iff [] = ((λ h. tt), (λ h. refl))
is_ascii_iff (c ∷ s) = (
  (λ h. (ground arith, (is_ascii_iff s).0 (ground arith))),
  (λ h. ground (arith, h.0, (is_ascii_iff s).1 h.1)),
)

pub named→host_of : (name : List ℕ) → IsNamed name → host_of name ≡ some (to_ascii_lowercase name)
unfolding host_of is_empty
named→host_of [] (full, ascii) = absurd (full refl)
named→host_of (c ∷ s) (full, ascii) =
    let plain = (is_ascii_iff (c ∷ s)).1 ascii in rw (utf8-ascii (c ∷ s) plain, plain) refl

pub host_of→named :
    (name : List ℕ) {host : List ℕ}
    → host_of name ≡ some host
    → IsNamed name × (host ≡ to_ascii_lowercase name)
unfolding host_of is_empty
host_of→named [] h = absurd (ground arith)
host_of→named (c ∷ s) {host} h = (((λ e. cc e), (is_ascii_iff (c ∷ s)).0 plain), lowered)
  where
    plain : is_ascii (c ∷ s) ≡ true
    plain = ground arith

    lowered : host ≡ to_ascii_lowercase (c ∷ s)
    lowered = ground arith
