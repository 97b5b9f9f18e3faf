-- ===== src/Services/Domains.antt =====
-- crates/cachic/src/services/domains.rs: the hostname patterns of the services. The JSON of the index and the reading
-- of the files are left to serde and the file system: the index and the files are arguments.
pub mod Labels
pub mod Listed
use cachic.Common.{
  ℕ, zero, suc, ◌+◌, Bool, true, false, not, ◌&&◌, ◌||◌, Option, none, some, List, [], ◌∷◌, ◌++◌,
  ltb, leb, ◌==◌, if◌then◌else◌, Result, ok, err, ◌>>=◌, ok_or, length,
}
use cachic.Common.Text.{
  codes, text_eq, trim, trim_end_matches, to_ascii_lowercase, is_empty, strip_prefix, starts_with,
  space_len,
}
use cachic.Services.Key.{split}

pub data Pattern : Type 0 where
  exact suffix : List ℕ → Pattern

pub data DomainsError : Type 0 where
  json : DomainsError
  missing_file : List ℕ → List ℕ → DomainsError
  malformed : List ℕ → ℕ → DomainsError
  empty : DomainsError

abbrev pub public_suffixes : List (List ℕ)
public_suffixes =
    codes "co.uk"
    ∷ codes "org.uk"
    ∷ codes "ac.uk"
    ∷ codes "gov.uk"
    ∷ codes "me.uk"
    ∷ codes "net.uk"
    ∷ codes "sch.uk"
    ∷ codes "com.au"
    ∷ codes "net.au"
    ∷ codes "org.au"
    ∷ codes "edu.au"
    ∷ codes "gov.au"
    ∷ codes "co.nz"
    ∷ codes "net.nz"
    ∷ codes "org.nz"
    ∷ codes "co.jp"
    ∷ codes "ne.jp"
    ∷ codes "or.jp"
    ∷ codes "ac.jp"
    ∷ codes "go.jp"
    ∷ codes "com.br"
    ∷ codes "net.br"
    ∷ codes "org.br"
    ∷ codes "com.cn"
    ∷ codes "net.cn"
    ∷ codes "org.cn"
    ∷ codes "com.mx"
    ∷ codes "com.ar"
    ∷ codes "com.tr"
    ∷ codes "com.sg"
    ∷ codes "com.hk"
    ∷ codes "com.tw"
    ∷ codes "com.my"
    ∷ codes "com.ph"
    ∷ codes "com.vn"
    ∷ codes "co.kr"
    ∷ codes "co.za"
    ∷ codes "co.in"
    ∷ codes "co.il"
    ∷ codes "co.th"
    ∷ codes "com.pl"
    ∷ codes "com.ua"
    ∷ codes "com.ru"
    ∷ []

unfoldable pub contains_name : List (List ℕ) → List ℕ → Bool
contains_name [] s = false
contains_name (n ∷ names) s = text_eq n s || contains_name names s

-- The number of labels that are not empty.
unfoldable pub count_labels : List (List ℕ) → ℕ
count_labels [] = 0
count_labels (l ∷ rest) = let more = count_labels rest in if is_empty l then more else more + 1

unfoldable pub is_public_suffix : List ℕ → Bool
unfolding count_labels contains_name
is_public_suffix rest = ltb (count_labels (split 46 rest)) 2 || contains_name public_suffixes rest

-- `Pattern::parse` after the host is trimmed and in lower case, by what `strip_prefix("*.")` gives.
unfoldable pub parse_host : List ℕ → Option (List ℕ) → Option Pattern
unfolding is_public_suffix
parse_host host (some (c ∷ rest)) =
    if is_public_suffix (c ∷ rest) then none else some (suffix (c ∷ rest))
parse_host host (some []) = if starts_with (codes "*") host then none else some (exact host)
parse_host host none = if starts_with (codes "*") host then none else some (exact host)

unfoldable pub parse_pattern : List ℕ → Option Pattern
unfolding parse_host
parse_pattern raw =
    let host = to_ascii_lowercase (trim_end_matches 46 (trim raw)) in
    if is_empty host then none else parse_host host (strip_prefix (codes "*.") host)

pub record Service : Type 0 where
  pub name : List ℕ
  pub description : List ℕ
  pub patterns : List Pattern

pub record DomainList : Type 0 where
  pub services : List Service

pub record RawService : Type 0 where
  pub name : List ℕ
  pub description : List ℕ
  pub domain_files : List (List ℕ)

-- `str::lines`: the ends of the lines are cut off, and an empty last line is no line.
unfoldable pub cut_return : List ℕ → List ℕ
cut_return [] = []
cut_return (c ∷ s) = let rest = cut_return s in if (c == 13) && is_empty s then [] else c ∷ rest

unfoldable pub lines_of : List (List ℕ) → List (List ℕ)
unfolding cut_return
lines_of [] = []
lines_of (l ∷ []) = if is_empty l then [] else l ∷ []
lines_of (l ∷ m ∷ rest) = cut_return l ∷ lines_of (m ∷ rest)

unfoldable pub lines : List ℕ → List (List ℕ)
unfolding lines_of
lines s = lines_of (split 10 s)

-- A trimmed line has more than one word exactly if it has white space.
unfoldable pub has_space : List ℕ → Bool
has_space [] = false
has_space (c ∷ s) = ltb 0 (space_len (c ∷ s)) || has_space s

unfoldable pub pattern_or :
    List ℕ
    → ℕ
    → Option Pattern
    → Result (List Pattern) DomainsError
    → Result (List Pattern) DomainsError
pattern_or file n (some p) more = more >>= λ ps. ok (p ∷ ps)
pattern_or file n none more = err (malformed file n)

-- The loop on the lines of a file, from line `n` on.
unfoldable pub parse_lines : List ℕ → ℕ → List (List ℕ) → Result (List Pattern) DomainsError
unfolding has_space pattern_or parse_pattern
parse_lines file n [] = ok []
parse_lines file n (l ∷ rest) =
    let line = trim l in
    let more = parse_lines file (n + 1) rest in
    if is_empty line || starts_with (codes "#") line
    then more
    else if has_space line
    then err (malformed file n)
    else pattern_or file n (parse_pattern line) more

abbrev pub Files : Type 0
Files = List (List ℕ × List ℕ)

unfoldable pub file_named : List ℕ → Files → Option (List ℕ)
file_named name [] = none
file_named name ((n, body) ∷ rest) = if text_eq n name then some body else file_named name rest

unfoldable pub parse_files : Files → List ℕ → List (List ℕ) → Result (List Pattern) DomainsError
unfolding file_named parse_lines lines
parse_files files service [] = ok []
parse_files files service (file ∷ rest) =
    ok_or (file_named file files) (missing_file service file) >>= λ body.
    parse_lines file 1 (lines body) >>= λ ps. parse_files files service rest >>= λ qs. ok (ps ++ qs)

-- The derived order: by constructor, then byte by byte.
unfoldable pub text_leb : List ℕ → List ℕ → Bool
text_leb [] b = true
text_leb (x ∷ a) [] = false
text_leb (x ∷ a) (y ∷ b) = let rest = text_leb a b in if x == y then rest else ltb x y

unfoldable pub pattern_leb : Pattern → Pattern → Bool
unfolding text_leb
pattern_leb (exact a) (exact b) = text_leb a b
pattern_leb (exact a) (suffix b) = true
pattern_leb (suffix a) (exact b) = false
pattern_leb (suffix a) (suffix b) = text_leb a b

unfoldable pub pattern_eq : Pattern → Pattern → Bool
pattern_eq (exact a) (exact b) = text_eq a b
pattern_eq (exact a) (suffix b) = false
pattern_eq (suffix a) (exact b) = false
pattern_eq (suffix a) (suffix b) = text_eq a b

unfoldable pub insert_sorted : Pattern → List Pattern → List Pattern
unfolding pattern_leb
insert_sorted p [] = p ∷ []
insert_sorted p (q ∷ qs) =
    let rest = insert_sorted p qs in if pattern_leb p q then p ∷ q ∷ qs else q ∷ rest

unfoldable pub sort : List Pattern → List Pattern
unfolding insert_sorted
sort [] = []
sort (p ∷ ps) = insert_sorted p (sort ps)

unfoldable pub before : Pattern → List Pattern → List Pattern
unfolding pattern_eq
before p [] = p ∷ []
before p (q ∷ qs) = if pattern_eq p q then q ∷ qs else p ∷ q ∷ qs

unfoldable pub dedup : List Pattern → List Pattern
unfolding before
dedup [] = []
dedup (p ∷ ps) = before p (dedup ps)

unfoldable pub parse_services : Files → List RawService → Result (List Service) DomainsError
unfolding parse_files sort dedup
parse_services files [] = ok []
parse_services files (raw ∷ rest) = parse_files files raw.name raw.domain_files >>= λ patterns.
    parse_services files rest >>= λ services. ok (
      record { name = raw.name; description = raw.description; patterns = dedup (sort patterns) }
      ∷ services)

unfoldable pub pattern_count : List Service → ℕ
pattern_count [] = 0
pattern_count (s ∷ rest) = length s.patterns + pattern_count rest

-- `DomainList::parse`, from what serde makes of the index.
unfoldable pub parse :
    Files → Result (List RawService) DomainsError → Result DomainList DomainsError
unfolding parse_services pattern_count
parse files index = index >>= λ raw. parse_services files raw >>= λ services.
    if pattern_count services == 0 then err empty else ok (record { services = services })
