-- ===== src/Services/Key/Preimage.antt =====
-- Which keys can share an object id.
use cachic.Common.{ℕ, ◌≡◌, sym, ap, ◌∙◌, false, Option, some, List}
use cachic.Common.Text.{contains, split_once}
use cachic.Common.Text.Laws.{split_once-append}
use cachic.Services.Key.{CacheKey, preimage}

some-injective : {A : Type 0} {a b : A} → ◌≡◌ {A = Option A} (some a) (some b) → a ≡ b
some-injective h = cc

-- For services without a NUL byte in their names, keys with the same bytes before hashing have the same
-- service and the same key.
pub preimage-injective :
    (k m : CacheKey)
    → contains 0 k.service ≡ false
    → contains 0 m.service ≡ false
    → preimage k ≡ preimage m
    → k ≡ m
preimage-injective k m h j e = record-eq (ap (λ r. r.0) same) (ap (λ r. r.1) same)
  where
    pieces :
        (n : CacheKey)
        → contains 0 n.service ≡ false
        → split_once 0 (preimage n) ≡ some (n.service, n.key)
    pieces n x = unfold preimage in split_once-append 0 n.service n.key x

    same : ◌≡◌ {A = List ℕ × List ℕ} (k.service, k.key) (m.service, m.key)
    same = some-injective (sym (pieces k h) ∙ ap (split_once 0) e ∙ pieces m j)

    record-eq : k.service ≡ m.service → k.key ≡ m.key → k ≡ m
    record-eq a b i = record { key = b i; service = a i }
