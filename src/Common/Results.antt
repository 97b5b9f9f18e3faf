-- ===== src/Common/Results.antt =====
-- `Result<A, E>` of Rust, and the `?` operator on results and on options as a bind.
use mathlib.Core.Path.{◌≡◌, refl}
use mathlib.Core.Logic.{◌⊎◌, inl, inr}
use mathlib.Core.Option.{Option, none, some}

pub data Result {ℓ κ} (A : Type ℓ) (E : Type κ) : Type (ℓ ⊔ κ) where
  ok : A → Result A E
  err : E → Result A E

-- `r?` followed by the rest of the function, in a function that returns a `Result`.
infixl 5 ◌>>=◌
abbrev pub ◌>>=◌ {ℓ κ μ} :
    {A : Type ℓ} {B : Type κ} {E : Type μ} → Result A E → (A → Result B E) → Result B E
err reason >>= rest = err reason
ok value >>= rest = rest value

-- `o?` in a function that returns an `Option`.
infixl 5 ◌>>?◌
abbrev pub ◌>>?◌ {ℓ κ} : {A : Type ℓ} {B : Type κ} → Option A → (A → Option B) → Option B
some a >>? f = f a
none >>? f = none

-- `o.ok_or(e)`.
abbrev pub ok_or {ℓ κ} : {A : Type ℓ} {E : Type κ} → Option A → E → Result A E
ok_or (some a) e = ok a
ok_or none e = err e

-- What a bind came through, when it came through: the value of its first part, and the rest on it.
pub >>=-eq-ok {ℓ κ μ} :
    {A : Type ℓ} {B : Type κ} {E : Type μ} (first : Result A E) (rest : A → Result B E) {out : B}
    → (first >>= rest) ≡ ok out
    → (value : A) × (first ≡ ok value) × (rest value ≡ ok out)
>>=-eq-ok (err reason) rest came = cc
>>=-eq-ok (ok value) rest came = (value, refl, came)

-- The same of an option.
pub >>?-eq-some {ℓ κ} :
    {A : Type ℓ} {B : Type κ} (first : Option A) (rest : A → Option B) {out : B}
    → (first >>? rest) ≡ some out
    → (value : A) × (first ≡ some value) × (rest value ≡ some out)
>>?-eq-some none rest came = cc
>>?-eq-some (some value) rest came = (value, refl, came)

pub ok-injective {ℓ κ} :
    {A : Type ℓ} {E : Type κ} {a b : A} → ◌≡◌ {A = Result A E} (ok a) (ok b) → a ≡ b
ok-injective h = cc

pub err-ne-ok {ℓ κ} :
    {A : Type ℓ} {E : Type κ} {a : A} {e : E} → ◌≡◌ {A = Result A E} (err e) (ok a) → Prim.⊥
err-ne-ok h = cc

pub Result-cases {ℓ κ} :
    {A : Type ℓ} {E : Type κ} (r : Result A E) → ((a : A) × (r ≡ ok a)) ⊎ ((e : E) × (r ≡ err e))
Result-cases (ok a) = inl (a, refl)
Result-cases (err e) = inr (e, refl)

pub some-injective : {A : Type 0} {a b : A} → ◌≡◌ {A = Option A} (some a) (some b) → a ≡ b
some-injective h = cc
