-- ===== src/Common/Text.antt =====
-- The text operations of Rust's standard library that the program calls, on UTF-8 bytes: equality,
-- `starts_with`, `strip_prefix`, `split_once`, `trim`, `to_ascii_lowercase`, `from_utf8`.
pub mod Laws
use Prim.Native.Char.{code}
use Prim.Native.String
use Prim.Native.String.{String}
use Prim.Native.Nat.{ℕ, zero, suc, ◌+◌, ◌-◌}
use mathlib.Core.Bool.{Bool, true, false, not, ◌&&◌, ◌||◌}
use mathlib.Core.Option.{Option, none, some}
use mathlib.Core.List.{List, [], ◌∷◌, ◌++◌, map}
use cachic.Common.Tests.{ltb, leb, ◌==◌, if◌then◌else◌}
use cachic.Common.Lists.{length, all, take, drop}

-- The bytes of an ASCII literal.
abbrev pub codes : String → List ℕ
codes String.[] = []
codes (String.◌∷◌ c s) = code c ∷ codes s

-- `a == b` on texts.
unfoldable pub text_eq : List ℕ → List ℕ → Bool
text_eq [] [] = true
text_eq [] (b ∷ bs) = false
text_eq (a ∷ as') [] = false
text_eq (a ∷ as') (b ∷ bs) = (a == b) && text_eq as' bs

-- `s.strip_prefix(p)`.
unfoldable pub strip_prefix : List ℕ → List ℕ → Option (List ℕ)
strip_prefix [] s = some s
strip_prefix (p ∷ ps) [] = none
strip_prefix (p ∷ ps) (c ∷ s) = if p == c then strip_prefix ps s else none

-- `s.starts_with(p)`.
unfoldable pub starts_with : List ℕ → List ℕ → Bool
starts_with [] s = true
starts_with (p ∷ ps) [] = false
starts_with (p ∷ ps) (c ∷ s) = (p == c) && starts_with ps s

-- `s.contains(c)` for an ASCII character.
unfoldable pub contains : ℕ → List ℕ → Bool
contains c [] = false
contains c (b ∷ s) = (b == c) || contains c s

-- `s.split_once(c)` for an ASCII character: at its first occurrence.
unfoldable pub split_once : ℕ → List ℕ → Option (List ℕ × List ℕ)
split_once c [] = none
split_once c (b ∷ s) =
    let rest = split_once c s in
    if b == c then some ([], s) else elim rest [ none ↦ none | some (l, r) ↦ some (b ∷ l, r) ]

-- `s.rsplit_once(c)`: at its last occurrence.
unfoldable pub rsplit_once : ℕ → List ℕ → Option (List ℕ × List ℕ)
rsplit_once c [] = none
rsplit_once c (b ∷ s) = elim (rsplit_once c s) [
  | none ↦ if b == c then some ([], s) else none
  | some (l, r) ↦ some (b ∷ l, r)
]

unfoldable pub is_ascii_digit : ℕ → Bool
is_ascii_digit c = leb 48 c && leb c 57

-- `to_ascii_lowercase` on one byte.
unfoldable pub lower : ℕ → ℕ
lower c = if leb 65 c && leb c 90 then c + 32 else c

unfoldable pub to_ascii_lowercase : List ℕ → List ℕ
unfolding lower
to_ascii_lowercase s = map lower s

abbrev is_ascii_byte : ℕ → Bool
is_ascii_byte c = ltb c 128

unfoldable pub is_ascii : List ℕ → Bool
is_ascii s = all is_ascii_byte s

-- The length in bytes of the white-space character that a text begins with, or 0: the characters
-- with the Unicode property White_Space.
unfoldable pub space_len : List ℕ → ℕ
space_len [] = 0
space_len (a ∷ []) = if a == 32 || (leb 9 a && leb a 13) then 1 else 0
space_len (a ∷ b ∷ []) =
    if a == 32 || (leb 9 a && leb a 13)
    then 1
    else if a == 0xc2 && (b == 0x85 || b == 0xa0)
    then 2
    else 0
space_len (a ∷ b ∷ c ∷ _) =
    if a == 32 || (leb 9 a && leb a 13)
    then 1
    else if a == 0xc2 && (b == 0x85 || b == 0xa0)
    then 2
    else if a == 0xe1 && (b == 0x9a && c == 0x80)
    then 3
    else if a == 0xe2
        && (b == 0x80 && ((leb 0x80 c && leb c 0x8a) || (c == 0xa8 || (c == 0xa9 || c == 0xaf))))
    then 3
    else if a == 0xe2 && (b == 0x81 && c == 0x9f)
    then 3
    else if a == 0xe3 && (b == 0x80 && c == 0x80)
    then 3
    else 0

-- Drop `n` bytes and then the white space that follows.
unfoldable pub skip_space : ℕ → List ℕ → List ℕ
skip_space n [] = []
skip_space zero (c ∷ s) = elim (space_len (c ∷ s)) [ zero ↦ c ∷ s | suc k ↦ skip_space k s ]
skip_space (suc n) (c ∷ s) = skip_space n s

unfoldable pub trim_start : List ℕ → List ℕ
unfolding skip_space space_len
trim_start s = skip_space 0 s

unfoldable pub is_empty : List ℕ → Bool
is_empty [] = true
is_empty (c ∷ s) = false

-- Cut where nothing but white space is left. A byte inside a character starts no white space.
unfoldable pub trim_end : List ℕ → List ℕ
unfolding trim_start is_empty
trim_end [] = []
trim_end (c ∷ s) = if is_empty (trim_start (c ∷ s)) then [] else c ∷ trim_end s

unfoldable pub trim : List ℕ → List ℕ
unfolding trim_start trim_end
trim s = trim_end (trim_start s)

-- `s.trim_end_matches(c)` for an ASCII character.
unfoldable pub trim_end_matches : ℕ → List ℕ → List ℕ
trim_end_matches c [] = []
trim_end_matches c (b ∷ s) = if all (λ x. x == c) (b ∷ s) then [] else b ∷ trim_end_matches c s

-- What must follow a lead byte: how many bytes, and the range of the first of them.
abbrev Tail : Type 0
Tail = ℕ × ℕ × ℕ

unfoldable pub utf8_lead : ℕ → Option Tail
utf8_lead b =
    if ltb b 0x80
    then some (0, 0x80, 0xbf)
    else if leb 0xc2 b && leb b 0xdf
    then some (1, 0x80, 0xbf)
    else if b == 0xe0
    then some (2, 0xa0, 0xbf)
    else if b == 0xed
    then some (2, 0x80, 0x9f)
    else if leb 0xe1 b && leb b 0xef
    then some (2, 0x80, 0xbf)
    else if b == 0xf0
    then some (3, 0x90, 0xbf)
    else if leb 0xf1 b && leb b 0xf3
    then some (3, 0x80, 0xbf)
    else if b == 0xf4
    then some (3, 0x80, 0x8f)
    else none

utf8_from : ℕ → ℕ → ℕ → List ℕ → Bool
utf8_from zero lo hi [] = true
utf8_from zero lo hi (b ∷ s) = elim (utf8_lead b) [
  | none ↦ false
  | some (n, lo', hi') ↦ utf8_from n lo' hi' s
]
utf8_from (suc n) lo hi [] = false
utf8_from (suc n) lo hi (b ∷ s) = (leb lo b && leb b hi) && utf8_from n 0x80 0xbf s

-- Whether `String::from_utf8` accepts the bytes.
unfoldable pub utf8 : List ℕ → Bool
unfolding utf8_from utf8_lead
utf8 s = utf8_from 0 0 0 s
