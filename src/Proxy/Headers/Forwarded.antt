-- ===== src/Proxy/Headers/Forwarded.antt =====
-- What an origin gets to see of a client's headers.
use cachic.Proxy.Headers.Withheld.{withheld, KeptBack, withheld_iff}
use cachic.Common.{
  ℕ, ◌≡◌, refl, sym, ap, ◌∙◌, Bool, true, false, Bool-cases, ◌⊎◌, inl, inr, ◌||◌, List, [], ◌∷◌,
  if◌then◌else◌,
}
use cachic.Common.Text.{codes, text_eq}
use cachic.Common.Text.Laws.{text_eq→eq}
use cachic.Common.Headers.{HeaderMap, header_values}
use cachic.Proxy.Headers.{
  credential_headers, eq_ignore_ascii_case, is_hop_by_hop, is_credential, connection_named, forward,
  forwarded_request_headers,
}

-- Four tests in turn are their disjunction.
tests_in_turn :
    {A : Type 0} (a b c d : Bool) (x y : A)
    → (if a then x else if b then x else if c then x else if d then x else y)
      ≡ (if a || (b || (c || d)) then x else y)
tests_in_turn true b c d x y = refl
tests_in_turn false true c d x y = refl
tests_in_turn false false true d x y = refl
tests_in_turn false false false d x y = refl

forward-withheld :
    (named : List (List ℕ)) (n v : List ℕ) (rest : HeaderMap)
    → forward named ((n, v) ∷ rest)
      ≡ (if withheld named n then forward named rest else (n, v) ∷ forward named rest)
unfolding forward withheld
forward-withheld named n v rest =
    tests_in_turn (is_hop_by_hop n named) (eq_ignore_ascii_case n (codes "host"))
      (eq_ignore_ascii_case n (codes "range")) (is_credential credential_headers n)
      (forward named rest) ((n, v) ∷ forward named rest)

both_empty : {A : Type 0} (b : Bool) → ◌≡◌ {A = List A} [] (if b then [] else [])
both_empty true = refl
both_empty false = refl

module _ (named : List (List ℕ)) (name n v : List ℕ) (rest : HeaderMap)
    (others : header_values name (forward named rest)
      ≡ (if withheld named name then [] else header_values name rest)) where
  abbrev Expected : List (List ℕ) → Type 0
  Expected vs = vs ≡ (
      if withheld named name
      then []
      else if text_eq n name
      then v ∷ header_values name rest
      else header_values name rest)

  withheld_case :
      withheld named n ≡ true
      → (text_eq n name ≡ true) ⊎ (text_eq n name ≡ false)
      → Expected (header_values name (forward named rest))
  withheld_case w (inl same) =
      let here = ap (withheld named) (sym (text_eq→eq n name same)) ∙ w in
      (rw here at others) ∙ (rw here refl)
  withheld_case w (inr other) = rw other others

  passed_case :
      withheld named n ≡ false
      → (text_eq n name ≡ true) ⊎ (text_eq n name ≡ false)
      → Expected (
          if text_eq n name
          then v ∷ header_values name (forward named rest)
          else header_values name (forward named rest))
  passed_case w (inl same) =
      let here = ap (withheld named) (sym (text_eq→eq n name same)) ∙ w in
      rw (same, here) (ap (λ vs. v ∷ vs) (rw here at others))
  passed_case w (inr other) = rw other others

header_values-forward :
    (named : List (List ℕ)) (name : List ℕ) (client : HeaderMap)
    → header_values name (forward named client)
      ≡ (if withheld named name then [] else header_values name client)
unfolding header_values forward
header_values-forward named name [] = both_empty (withheld named name)
header_values-forward named name ((n, v) ∷ rest) =
    let others = header_values-forward named name rest in
    rw (forward-withheld named n v rest) (elim (Bool-cases (withheld named n)) [
      | inl kept_back ↦
          rw kept_back
            (withheld_case named name n v rest others kept_back (Bool-cases (text_eq n name)))
      | inr passed ↦
          rw passed (passed_case named name n v rest others passed (Bool-cases (text_eq n name)))
    ])

-- The values of a header reach the origin all and in order, or none of them does: none exactly if the name, in
-- lower case, is one of the hop-by-hop headers, `Host`, `Range`, `Authorization` and `Cookie`, or one of the
-- comma-separated elements of a `Connection` header of the client that is visible ASCII, trimmed and in lower case.
pub forwarded_request_headers-withheld :
    (name : List ℕ) (client : HeaderMap)
    → ((header_values name (forwarded_request_headers client) ≡ []) × KeptBack client name)
      ⊎ ((header_values name (forwarded_request_headers client) ≡ header_values name client)
          × ¬ KeptBack client name)
unfolding forwarded_request_headers
forwarded_request_headers-withheld name client =
    let passed = header_values-forward (connection_named client) name client in
    elim (Bool-cases (withheld (connection_named client) name)) [
      | inl kept_back ↦ inl (rw kept_back at passed, (withheld_iff client name).0 kept_back)
      | inr sent ↦ inr (rw sent at passed, (λ w. cc (sym ((withheld_iff client name).1 w) ∙ sent)))
    ]
