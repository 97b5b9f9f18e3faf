-- ===== src/Orchestrator/Validators.antt =====
-- crates/cachic/src/orchestrator/validators.rs: whether two responses describe the same bytes.
pub mod Laws
use cachic.Common.{
  ℕ, ◌≡◌, ◌≢◌, refl, sym, ap, ◌∙◌, ◌⊎◌, inl, inr, Bool, true, false, Bool-cases, ◌&&◌, ◌||◌, Option,
  none, some, List, [], ◌∷◌, if◌then◌else◌, arith,
}
use cachic.Common.Text.{codes, text_eq, starts_with, trim, is_empty}

pub record Validators : Type 0 where
  pub etag : Option (List ℕ)
  pub last_modified : Option (List ℕ)

unfoldable pub is_weak : List ℕ → Bool
is_weak tag = starts_with (codes "W/") tag

unfoldable pub strong_eq : List ℕ → List ℕ → Bool
unfolding is_weak
strong_eq a b = if is_weak a || is_weak b then false else text_eq a b

unfoldable pub matches_modified : Option (List ℕ) → Option (List ℕ) → Bool
matches_modified (some a) (some b) = text_eq a b
matches_modified (some a) none = false
matches_modified none (some b) = false
matches_modified none none = true

unfoldable pub matches_etag : Option (List ℕ) → Option (List ℕ) → Bool → Bool
matches_etag (some a) (some b) modified = strong_eq a b
matches_etag (some a) none modified = false
matches_etag none (some b) modified = false
matches_etag none none modified = modified

unfoldable pub matches : Validators → Validators → Bool
unfolding matches_etag matches_modified
matches v w = matches_etag v.etag w.etag (matches_modified v.last_modified w.last_modified)

unfoldable pub is_none {ℓ} : {A : Type ℓ} → Option A → Bool
is_none none = true
is_none (some a) = false

unfoldable pub is_silent : Validators → Bool
unfolding is_none
is_silent v = is_none v.etag && is_none v.last_modified

-- Whether the current value is there and passes a test.
abbrev pub passes : (List ℕ → Bool) → Option (List ℕ) → Bool
passes test none = false
passes test (some v) = test v

unfoldable pub if_range_matches : List ℕ → Validators → Bool
if_range_matches header current =
    let value = trim header in
    if is_empty value
    then false
    else if starts_with (codes "\"") value || starts_with (codes "W/") value
    then passes (strong_eq value) current.etag
    else passes (λ modified. text_eq modified value) current.last_modified
