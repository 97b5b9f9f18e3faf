-- ===== src/Common/Text/Laws.antt =====
-- Laws of the text operations.
use Prim.Native.Nat.{ℕ, ◌≤◌}
use mathlib.Core.Path.{◌≡◌, refl, ap, ◌∙◌}
use mathlib.Core.Logic.{◌↔◌}
use mathlib.Core.Bool.{true, false, ◌||◌}
use mathlib.Core.Option.{some}
use mathlib.Core.List.{List, [], ◌∷◌, ◌++◌}
use native.Mathlib.Omega.{arith}
use cachic.Common.Lists.{All}
use cachic.Common.Text.{
  text_eq, strip_prefix, contains, split_once, lower, to_ascii_lowercase, is_ascii, space_len,
  skip_space, trim_start, trim_end, trim, is_empty, utf8, utf8_from,
}

pub text_eq→eq : (a b : List ℕ) → text_eq a b ≡ true → a ≡ b
unfolding text_eq
text_eq→eq [] [] h = refl
text_eq→eq [] (b ∷ bs) h = cc
text_eq→eq (a ∷ xs) [] h = cc
text_eq→eq (a ∷ xs) (b ∷ bs) h = ground (arith, text_eq→eq xs bs)

pub text_eq_refl : (a : List ℕ) → text_eq a a ≡ true
unfolding text_eq
text_eq_refl [] = refl
text_eq_refl (a ∷ xs) = ground (arith, text_eq_refl xs)

pub eq→text_eq : (a b : List ℕ) → a ≡ b → text_eq a b ≡ true
eq→text_eq a b h = rw h (text_eq_refl b)

pub text_eq_comm : (a b : List ℕ) → text_eq a b ≡ text_eq b a
unfolding text_eq
text_eq_comm [] [] = refl
text_eq_comm [] (b ∷ bs) = refl
text_eq_comm (a ∷ xs) [] = refl
text_eq_comm (a ∷ xs) (b ∷ bs) = ground (arith, text_eq_comm xs bs)

pub strip_prefix-append : (p s : List ℕ) → strip_prefix p (p ++ s) ≡ some s
unfolding strip_prefix
strip_prefix-append [] s = refl
strip_prefix-append (c ∷ p) s = ground (arith, strip_prefix-append p s)

pub strip_prefix→append : (p s r : List ℕ) → strip_prefix p s ≡ some r → s ≡ p ++ r
unfolding strip_prefix
strip_prefix→append [] s r h = cc
strip_prefix→append (c ∷ p) [] r h = cc
strip_prefix→append (c ∷ p) (d ∷ s) r h = ground (arith, strip_prefix→append p s r)

pub contains-append : (c : ℕ) (s t : List ℕ) → contains c (s ++ t) ≡ (contains c s || contains c t)
unfolding contains
contains-append c [] t = refl
contains-append c (b ∷ s) t = ground (arith, contains-append c s t)

-- A text splits at the first place where the character stands.
pub split_once-append :
    (c : ℕ) (l r : List ℕ) → contains c l ≡ false → split_once c (l ++ c ∷ r) ≡ some (l, r)
unfolding split_once contains
split_once-append c [] r h = ground arith
split_once-append c (b ∷ l) r h = ground (arith, split_once-append c l r)

pub split_once→append :
    (c : ℕ) (s l r : List ℕ)
    → split_once c s ≡ some (l, r)
    → (s ≡ l ++ c ∷ r) × (contains c l ≡ false)
unfolding split_once contains
split_once→append c [] l r h = absurd (ground arith)
split_once→append c (b ∷ s) [] r h = ground arith
split_once→append c (b ∷ s) (d ∷ l) r h = ground (arith, split_once→append c s l r)

pub lower_idem : (c : ℕ) → lower (lower c) ≡ lower c
unfolding lower
lower_idem c = ground arith

pub to_ascii_lowercase_idem :
    (s : List ℕ) → to_ascii_lowercase (to_ascii_lowercase s) ≡ to_ascii_lowercase s
unfolding to_ascii_lowercase
to_ascii_lowercase_idem [] = refl
to_ascii_lowercase_idem (c ∷ s) = cc (lower_idem c, to_ascii_lowercase_idem s)

pub utf8-ascii : (s : List ℕ) → is_ascii s ≡ true → utf8 s ≡ true
unfolding utf8 is_ascii
utf8-ascii s h = go s 0 0 h
  where
    go : (s : List ℕ) (lo hi : ℕ) → is_ascii s ≡ true → utf8_from 0 lo hi s ≡ true
    go [] lo hi h = refl
    go (c ∷ s) lo hi h = ground (arith, go s 0x80 0xbf)

-- Printing ASCII: no white space, no control character.
abbrev pub IsGraphic : ℕ → Type 0
IsGraphic c = (33 ≤ c) × (c ≤ 126)

space_len_graphic : (c : ℕ) (s : List ℕ) → IsGraphic c → space_len (c ∷ s) ≡ 0
unfolding space_len
space_len_graphic c [] h = ground arith
space_len_graphic c (a ∷ []) h = ground arith
space_len_graphic c (a ∷ b ∷ s) h = ground arith

skip_space_graphic : (c : ℕ) (s : List ℕ) → IsGraphic c → skip_space 0 (c ∷ s) ≡ c ∷ s
unfolding skip_space
skip_space_graphic c s h = rw (space_len_graphic c s h, skip_space)

pub trim_start_graphic : (c : ℕ) (s : List ℕ) → IsGraphic c → trim_start (c ∷ s) ≡ c ∷ s
trim_start_graphic c s h = unfold trim_start in skip_space_graphic c s h

trim_end_graphic : (s : List ℕ) → All IsGraphic s → trim_end s ≡ s
unfolding trim_end is_empty
trim_end_graphic [] h = refl
trim_end_graphic (c ∷ s) (hc, hs) =
    rw (trim_start_graphic c s hc) (ap (λ l. c ∷ l) (trim_end_graphic s hs))

pub trim_end-append : (s t : List ℕ) → All IsGraphic s → trim_end (s ++ t) ≡ s ++ trim_end t
unfolding trim_end is_empty
trim_end-append [] t h = refl
trim_end-append (c ∷ s) t (hc, hs) =
    rw (trim_start_graphic c (s ++ t) hc) (ap (λ l. c ∷ l) (trim_end-append s t hs))

pub trim_graphic : (s : List ℕ) → All IsGraphic s → trim s ≡ s
trim_graphic [] h = unfold trim trim_start skip_space trim_end in refl
trim_graphic (c ∷ s) h =
    unfold trim in ap trim_end (trim_start_graphic c s h.0) ∙ trim_end_graphic (c ∷ s) h

-- Leading spaces are dropped.
pub trim-space : (s : List ℕ) → trim (32 ∷ s) ≡ trim s
trim-space [] = unfold trim trim_start skip_space space_len in refl
trim-space (c ∷ []) = unfold trim trim_start skip_space space_len in refl
trim-space (c ∷ d ∷ s) = unfold trim trim_start skip_space space_len in refl

-- For `ground`, at each pair of texts that is compared.
pub text_eq_iff : (a b : List ℕ) → (text_eq a b ≡ true) ↔ (a ≡ b)
text_eq_iff a b = (text_eq→eq a b, eq→text_eq a b)
