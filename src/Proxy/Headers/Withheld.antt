-- ===== src/Proxy/Headers/Withheld.antt =====
-- Which headers of a client are withheld from an origin.
use mathlib.Core.List.{Memᴰ}
use mathlib.Core.List.Memᴰ
use cachic.Services.Key.{split}
use cachic.Common.{
  ℕ, ◌≡◌, refl, sym, ap, ◌∙◌, Bool, true, false, Bool-cases, ◌⊎◌, inl, inr, ◌||◌, List, [], ◌∷◌,
  ◌≢◌, ◌↔◌, ◌++◌, some, map, subst, all, arith,
}
use cachic.Common.Text.{codes, text_eq, trim, to_ascii_lowercase, is_empty}
use cachic.Common.Text.Laws.{text_eq→eq, text_eq_refl, text_eq_comm}
use cachic.Common.Headers.{HeaderMap, header_values, to_str, is_visible}
use cachic.Proxy.Headers.{
  hop_by_hop, credential_headers, eq_ignore_ascii_case, is_hop_by_hop, is_credential,
  connection_named, listed, nonempty, named_in, named_in_all,
}

-- The tests of the loop, together.
unfoldable pub withheld : List (List ℕ) → List ℕ → Bool
withheld named name =
    is_hop_by_hop name named
    || (eq_ignore_ascii_case name (codes "host")
        || (eq_ignore_ascii_case name (codes "range") || is_credential credential_headers name))

-- The names that never reach an origin, in lower case.
abbrev pub never_forwarded : List (List ℕ)
never_forwarded =
    codes "connection"
    ∷ codes "keep-alive"
    ∷ codes "proxy-authenticate"
    ∷ codes "proxy-authorization"
    ∷ codes "te"
    ∷ codes "trailer"
    ∷ codes "transfer-encoding"
    ∷ codes "upgrade"
    ∷ codes "host"
    ∷ codes "range"
    ∷ codes "authorization"
    ∷ codes "cookie"
    ∷ []

-- A name in lower case is one of the comma-separated elements of a `Connection` header.
pub record NamedBy (client : HeaderMap) (name : List ℕ) : Type 0 where
  pub value : List ℕ
  pub element : List ℕ
  pub some_header : Memᴰ value (header_values (codes "connection") client)
  pub visible : to_str value ≡ some value
  pub some_element : Memᴰ element (split 44 value)
  pub same_name : to_ascii_lowercase (trim element) ≡ name
  pub some_name : name ≢ []

-- A header of this name is not passed on.
abbrev pub KeptBack : HeaderMap → List ℕ → Type 0
KeptBack client name =
    Memᴰ (to_ascii_lowercase name) never_forwarded ⊎ NamedBy client (to_ascii_lowercase name)

either_true : (b : Bool) → (b || true) ≡ true
either_true true = refl
either_true false = refl

either : (a b : Bool) → (a || b) ≡ true → (a ≡ true) ⊎ (b ≡ true)
either true b h = inl refl
either false b h = inr h

listed_iff : (names : List (List ℕ)) (name : List ℕ) → (listed names name ≡ true) ↔ Memᴰ name names
unfolding listed
listed_iff [] name = ((λ h. cc), (λ m. absurd (Memᴰ.not-nil m)))
listed_iff (n ∷ names) name = (
  (λ h. elim (Bool-cases (text_eq n name)) [
    | inl same ↦ Memᴰ.head (sym (text_eq→eq n name same))
    | inr other ↦ Memᴰ.tail ((listed_iff names name).0 (rw other at h))
  ]),
  (λ m. elim (Memᴰ.cases_cons m) [
    | inl is ↦ rw (← is, text_eq_refl name) refl
    | inr later ↦ rw ((listed_iff names name).1 later) (either_true (text_eq n name))
  ]),
)

listed-append :
    (a b : List (List ℕ)) (name : List ℕ) → listed (a ++ b) name ≡ (listed a name || listed b name)
unfolding listed
listed-append [] b name = refl
listed-append (n ∷ a) b name = ground (arith, listed-append a b name)

-- The elements of a header, from their pieces.
nonempty-element :
    (name : List ℕ) (pieces : List (List ℕ))
    → (listed (nonempty (map (λ s. to_ascii_lowercase (trim s)) pieces)) name ≡ true)
      ↔ ((p : List ℕ) × (Memᴰ p pieces) × (to_ascii_lowercase (trim p) ≡ name) × (name ≢ []))
unfolding nonempty listed
nonempty-element name [] = ((λ h. cc), (λ (p, m, e, ne). absurd (Memᴰ.not-nil m)))
nonempty-element name (s ∷ pieces) = (
  (λ h. elim (Bool-cases (is_empty (to_ascii_lowercase (trim s)))) [
    | inl blank ↦ later ((nonempty-element name pieces).0 (rw blank at h))
    | inr full ↦ elim (Bool-cases (text_eq (to_ascii_lowercase (trim s)) name)) [
      | inl same ↦
          let is = text_eq→eq (to_ascii_lowercase (trim s)) name same in
          (s, Memᴰ.head refl, is, not_blank is full)
      | inr other ↦ later ((nonempty-element name pieces).0 (rw other at (rw full at h)))
    ]
  ]),
  (λ (p, m, is, ne). elim (Memᴰ.cases_cons m) [
    | inl here ↦
        rw
          (full_of (to_ascii_lowercase (trim s))
            (ap (λ x. to_ascii_lowercase (trim x)) (sym here) ∙ is) ne)
          (rw (ap (λ x. to_ascii_lowercase (trim x)) (sym here) ∙ is, text_eq_refl name) refl)
    | inr there ↦ elim (Bool-cases (is_empty (to_ascii_lowercase (trim s)))) [
      | inl blank ↦ rw blank ((nonempty-element name pieces).1 (p, there, is, ne))
      | inr full ↦
          rw (full, (nonempty-element name pieces).1 (p, there, is, ne))
            (either_true (text_eq (to_ascii_lowercase (trim s)) name))
    ]
  ]),
)
  where
    full_of : (x : List ℕ) → x ≡ name → name ≢ [] → is_empty x ≡ false
    full_of [] is ne = absurd (ne (sym is))
    full_of (c ∷ x) is ne = unfold is_empty in refl

    not_blank :
        to_ascii_lowercase (trim s) ≡ name
        → is_empty (to_ascii_lowercase (trim s)) ≡ false
        → name ≢ []
    not_blank is full blank = unfold is_empty in cc (rw (is ∙ blank) at full)

    later :
        ((p : List ℕ) × (Memᴰ p pieces) × (to_ascii_lowercase (trim p) ≡ name) × (name ≢ []))
        → (p : List ℕ) × (Memᴰ p (s ∷ pieces)) × (to_ascii_lowercase (trim p) ≡ name) × (name ≢ [])
    later (p, m, is, ne) = (p, Memᴰ.tail m, is, ne)

named_in_iff :
    (v name : List ℕ)
    → (listed (named_in (to_str v)) name ≡ true) ↔ (
        (to_str v ≡ some v)
        × (p : List ℕ) × (Memᴰ p (split 44 v))
        × (to_ascii_lowercase (trim p) ≡ name)
        × (name ≢ []))
unfolding named_in to_str listed
named_in_iff v name = elim (Bool-cases (all is_visible v)) [
  | inl seen ↦ rw seen (
    (λ h.
        let (p, piece, is, ne) = (nonempty-element name (split 44 v)).0 h in
        (refl, p, piece, is, ne)),
    (λ (e, p, piece, is, ne). (nonempty-element name (split 44 v)).1 (p, piece, is, ne)),
  )
  | inr hidden ↦ rw hidden ((λ h. cc), (λ (e, p, piece, is, ne). cc))
]

named_in_all_iff :
    (vs : List (List ℕ)) (name : List ℕ)
    → (listed (named_in_all vs) name ≡ true)
      ↔ ((v : List ℕ) × (Memᴰ v vs) × (listed (named_in (to_str v)) name ≡ true))
unfolding named_in_all
named_in_all_iff [] name = ((λ h. unfold listed in cc), (λ (v, m, h). absurd (Memᴰ.not-nil m)))
named_in_all_iff (w ∷ vs) name = rw (listed-append (named_in (to_str w)) (named_in_all vs) name) (
  (λ h. elim (either _ _ h) [
    | inl here ↦ (w, Memᴰ.head refl, here)
    | inr there ↦ let (v, m, found) = (named_in_all_iff vs name).0 there in (v, Memᴰ.tail m, found)
  ]),
  (λ (v, m, found). elim (Memᴰ.cases_cons m) [
    | inl is ↦ rw (subst (λ x. listed (named_in (to_str x)) name ≡ true) is found) refl
    | inr there ↦
        rw ((named_in_all_iff vs name).1 (v, there, found))
          (either_true (listed (named_in (to_str w)) name))
  ]),
)

connection_named_iff :
    (client : HeaderMap) (name : List ℕ)
    → (listed (connection_named client) name ≡ true) ↔ NamedBy client name
unfolding connection_named
connection_named_iff client name = (
  (λ h.
      let (v, m, found) = (named_in_all_iff (header_values (codes "connection") client) name).0 h in
      let (visible, p, piece, is, ne) = (named_in_iff v name).0 found in
      record {
        value = v;
        element = p;
        some_header = m;
        visible = visible;
        some_element = piece;
        same_name = is;
        some_name = ne;
      }),
  (λ n. (named_in_all_iff (header_values (codes "connection") client) name).1 (
    n.value,
    n.some_header,
    (named_in_iff n.value name).1 (n.visible, n.element, n.some_element, n.same_name, n.some_name),
  )),
)

swap_last : (x y z : Bool) → ((x || y) || z) ≡ ((x || z) || y)
swap_last true y z = refl
swap_last false true true = refl
swap_last false true false = refl
swap_last false false true = refl
swap_last false false false = refl

eq_ignore_ascii_case-literal :
    (name literal : List ℕ)
    → to_ascii_lowercase literal ≡ literal
    → eq_ignore_ascii_case name literal ≡ text_eq literal (to_ascii_lowercase name)
unfolding eq_ignore_ascii_case
eq_ignore_ascii_case-literal name literal h =
    ap (text_eq (to_ascii_lowercase name)) h ∙ text_eq_comm (to_ascii_lowercase name) literal

abbrev client_only : List (List ℕ)
client_only = codes "host" ∷ codes "range" ∷ codes "authorization" ∷ codes "cookie" ∷ []

listed-client_only :
    (name : List ℕ)
    → (eq_ignore_ascii_case name (codes "host")
        || (eq_ignore_ascii_case name (codes "range") || is_credential credential_headers name))
      ≡ listed client_only (to_ascii_lowercase name)
unfolding is_credential listed
listed-client_only name =
    rw
      (
        eq_ignore_ascii_case-literal name (codes "host") (unfold to_ascii_lowercase in refl),
        eq_ignore_ascii_case-literal name (codes "range") (unfold to_ascii_lowercase in refl),
        eq_ignore_ascii_case-literal name (codes "authorization")
            (unfold to_ascii_lowercase in refl),
        eq_ignore_ascii_case-literal name (codes "cookie") (unfold to_ascii_lowercase in refl),
      )
      refl

withheld-never_forwarded :
    (named : List (List ℕ)) (name : List ℕ)
    → withheld named name
      ≡ (listed never_forwarded (to_ascii_lowercase name) || listed named (to_ascii_lowercase name))
unfolding withheld is_hop_by_hop
withheld-never_forwarded named name =
    let l = to_ascii_lowercase name in
    rw (listed-client_only name) (
      swap_last (listed hop_by_hop l) (listed named l) (listed client_only l)
      ∙ ap (λ b. b || listed named l) (sym (listed-append hop_by_hop client_only l)))

pub withheld_iff :
    (client : HeaderMap) (name : List ℕ)
    → (withheld (connection_named client) name ≡ true) ↔ KeptBack client name
withheld_iff client name =
    let l = to_ascii_lowercase name in
    rw (withheld-never_forwarded (connection_named client) name) (
      (λ h. elim (either _ _ h) [
        | inl never ↦ inl ((listed_iff never_forwarded l).0 never)
        | inr named ↦ inr ((connection_named_iff client l).0 named)
      ]),
      (λ w. elim w [
        | inl never ↦ rw ((listed_iff never_forwarded l).1 never) refl
        | inr named ↦
            rw ((connection_named_iff client l).1 named) (either_true (listed never_forwarded l))
      ]),
    )
