-- ===== src/Proxy/Headers/Preserved.antt =====
-- What a stored object keeps of its origin's headers.
use cachic.Common.{
  ℕ, ◌≡◌, refl, sym, false, Bool-cases, inl, inr, List, [], ◌∷◌, ◌++◌, append-nil, if◌then◌else◌,
}
use cachic.Common.Text.{text_eq}
use cachic.Common.Text.Laws.{text_eq→eq}
use cachic.Common.Headers.{HeaderMap, header_values}
use cachic.Proxy.Headers.{
  listed, append_all, preserve, preserved_entity, preserved_response_headers,
}

-- No name stands twice.
abbrev IsDistinct : List (List ℕ) → Type 0
IsDistinct [] = Unit
IsDistinct (n ∷ names) = (listed names n ≡ false) × IsDistinct names

header_values-append_all :
    (name n : List ℕ) (vs : List (List ℕ)) (out : HeaderMap)
    → header_values name (append_all n vs out)
      ≡ (if text_eq n name then vs ++ header_values name out else header_values name out)
unfolding header_values append_all
header_values-append_all name n [] out = elim (Bool-cases (text_eq n name)) [
  | inl same ↦ rw same refl
  | inr other ↦ rw other refl
]
header_values-append_all name n (v ∷ vs) out =
    rw (header_values-append_all name n vs out)
      (elim (Bool-cases (text_eq n name)) [ inl same ↦ rw same refl | inr other ↦ rw other refl ])

header_values-preserve :
    (names : List (List ℕ)) (name : List ℕ) (upstream : HeaderMap)
    → IsDistinct names
    → header_values name (preserve names upstream)
      ≡ (if listed names name then header_values name upstream else [])
unfolding preserve listed header_values
header_values-preserve [] name upstream h = refl
header_values-preserve (n ∷ names) name upstream (fresh, h) =
    rw
      (
        header_values-append_all name n (header_values n upstream) (preserve names upstream),
        header_values-preserve names name upstream h,
      )
      (elim (Bool-cases (text_eq n name)) [
        | inl same ↦
            rw (same, sym (text_eq→eq n name same), fresh) (append-nil (header_values n upstream))
        | inr other ↦ rw other refl
      ])

-- Of a response, exactly the headers that describe the entity are kept, each with all its values in order.
pub preserved_response_headers-listed :
    (name : List ℕ) (upstream : HeaderMap)
    → header_values name (preserved_response_headers upstream)
      ≡ (if listed preserved_entity name then header_values name upstream else [])
unfolding preserved_response_headers listed text_eq
preserved_response_headers-listed name upstream =
    header_values-preserve preserved_entity name upstream
      (refl, (refl, (refl, (refl, (refl, (refl, (refl, tt)))))))
