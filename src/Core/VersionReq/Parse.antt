-- ===== src/Core/VersionReq/Parse.antt =====
-- src/core/version_req.cpp: parsing, matching and printing.
use voxel_browser.Prelude.{
  ℕ, zero, suc, ◌+◌, Bool, true, false, ◌&&◌, ◌||◌, not, Option, none, some, List, [], ◌∷◌, ◌++◌,
  ltb, ◌==◌, if◌then◌else◌, length,
}
use voxel_browser.Prelude.Int.{ℤ, pos, pos_part, neg_part, ◌+ℤ◌}
use voxel_browser.Core.VersionReq.Decimal.{from_chars, print_int}
use voxel_browser.Core.VersionReq.Texts

pub record SemVer : Type 0 where
  pub major : ℤ
  pub minor : ℤ
  pub patch : ℤ

abbrev pub version : ℤ → ℤ → ℤ → SemVer
version a b c = record { major = a; minor = b; patch = c }

-- `a < b` and `a == b` of ints.
abbrev pub less_int : ℤ → ℤ → Bool
less_int a b = ltb (pos_part a + neg_part b) (pos_part b + neg_part a)

abbrev pub same_int : ℤ → ℤ → Bool
same_int a b = (pos_part a + neg_part b) == (pos_part b + neg_part a)

-- The defaulted comparisons, member by member.
unfoldable pub less : SemVer → SemVer → Bool
less v w =
    less_int v.major w.major
    || (same_int v.major w.major
        && (less_int v.minor w.minor || (same_int v.minor w.minor && less_int v.patch w.patch)))

unfoldable pub same : SemVer → SemVer → Bool
same v w = same_int v.major w.major && (same_int v.minor w.minor && same_int v.patch w.patch)

abbrev pub is_blank : ℕ → Bool
is_blank c = c == b' ' || c == 9

unfoldable pub trim_front : List ℕ → List ℕ
trim_front [] = []
trim_front (c ∷ cs) = let rest = trim_front cs in if is_blank c then rest else c ∷ cs

unfoldable pub trim_back : List ℕ → List ℕ
trim_back [] = []
trim_back (c ∷ cs) = elim (trim_back cs) [
  | [] ↦ if is_blank c then [] else c ∷ []
  | d ∷ ds ↦ c ∷ d ∷ ds
]

abbrev pub trim : List ℕ → List ℕ
trim s = trim_back (trim_front s)

-- The text up to the first separator, and what follows the separator if there is one.
unfoldable pub split_at : ℕ → List ℕ → List ℕ × Option (List ℕ)
split_at separator [] = ([], none)
split_at separator (c ∷ cs) =
    let (part, rest) = split_at separator cs in
    if c == separator then ([], some cs) else (c ∷ part, rest)

unfoldable pub parse_part : List ℕ → Option ℤ
parse_part s = if ltb 6 (length s) then none else from_chars s

-- The parts between dots, of which there are at most so many; the loop of `parse_partial`.
unfoldable pub parse_parts : ℕ → List ℕ → Option (List ℤ)
parse_parts zero text = none
parse_parts (suc slots) text =
    let (part, rest) = split_at b'.' text in
    elim (parse_part part) [
      | none ↦ none
      | some z ↦ elim rest [
        | none ↦ some (z ∷ [])
        | some following ↦ elim (parse_parts slots following) [
          | none ↦ none
          | some zs ↦ some (z ∷ zs)
        ]
      ]
    ]

pub record Partial : Type 0 where
  pub v : SemVer
  pub parts : ℕ

unfoldable pub partial_of : List ℤ → Partial
partial_of [] = record { v = version (pos 0) (pos 0) (pos 0); parts = 0 }
partial_of (a ∷ []) = record { v = version a (pos 0) (pos 0); parts = 1 }
partial_of (a ∷ b ∷ []) = record { v = version a b (pos 0); parts = 2 }
partial_of (a ∷ b ∷ c ∷ more) = record { v = version a b c; parts = 3 }

-- The text without a `v` in front.
abbrev pub without_v : List ℕ → List ℕ
without_v [] = []
without_v (c ∷ cs) = if c == b'v' then cs else c ∷ cs

unfoldable pub parse_partial : List ℕ → Option Partial
parse_partial text = elim (without_v (trim text)) [
  | [] ↦ none
  | c ∷ cs ↦ elim (parse_parts 3 (c ∷ cs)) [ none ↦ none | some zs ↦ some (partial_of zs) ]
]

unfoldable pub parse_semver : List ℕ → Option SemVer
parse_semver text = elim (parse_partial text) [ none ↦ none | some p ↦ some p.v ]

unfoldable pub print_version : SemVer → List ℕ
print_version v = print_int v.major ++ (b'.' ∷ (print_int v.minor ++ (b'.' ∷ print_int v.patch)))

pub data Op : Type 0 where
  ge gt le lt eq : Op

pub record Comparator : Type 0 where
  pub op : Op
  pub version : SemVer

abbrev pub VersionReq : Type 0
VersionReq = List Comparator

-- What a comparator's text begins with.
pub data Prefix : Type 0 where
  plain : Op → Prefix
  caret tilde : Prefix

abbrev pub prefix_of_one : ℕ → List ℕ → Option (Prefix × List ℕ)
prefix_of_one c rest =
    if c == b'>'
    then some (plain gt, rest)
    else if c == b'<'
    then some (plain lt, rest)
    else if c == b'='
    then some (plain eq, rest)
    else if c == b'^'
    then some (caret, rest)
    else if c == b'~'
    then some (tilde, rest)
    else none

unfoldable pub prefix : List ℕ → Option (Prefix × List ℕ)
prefix [] = none
prefix (c ∷ []) = prefix_of_one c []
prefix (c ∷ d ∷ rest) =
    if c == b'>' && d == b'='
    then some (plain ge, rest)
    else if c == b'<' && d == b'='
    then some (plain le, rest)
    else prefix_of_one c (d ∷ rest)

abbrev pub is_positive : ℤ → Bool
is_positive z = less_int (pos 0) z

unfoldable pub caret_upper : Partial → SemVer
caret_upper p =
    if is_positive p.v.major || p.parts == 1
    then version (p.v.major +ℤ pos 1) (pos 0) (pos 0)
    else if is_positive p.v.minor || p.parts == 2
    then version (pos 0) (p.v.minor +ℤ pos 1) (pos 0)
    else version (pos 0) (pos 0) (p.v.patch +ℤ pos 1)

unfoldable pub tilde_upper : Partial → SemVer
tilde_upper p =
    if p.parts == 1
    then version (p.v.major +ℤ pos 1) (pos 0) (pos 0)
    else version p.v.major (p.v.minor +ℤ pos 1) (pos 0)

-- The comparators that a prefix and a version stand for.
unfoldable pub expand : Prefix → Partial → List Comparator
expand (plain op) p = record { op = op; version = p.v } ∷ []
expand caret p =
    record { op = ge; version = p.v } ∷ record { op = lt; version = caret_upper p } ∷ []
expand tilde p =
    record { op = ge; version = p.v } ∷ record { op = lt; version = tilde_upper p } ∷ []

-- A value, or the text of the error.
pub data Parsed (A : Type 0) : Type 0 where
  parsed : A → Parsed A
  refused : List ℕ → Parsed A

unfoldable pub parse_item : List ℕ → List ℕ → Parsed (List Comparator)
parse_item text [] = refused (Texts.empty_comparator ++ (text ++ (34 ∷ [])))
parse_item text (c ∷ cs) = elim (prefix (c ∷ cs)) [
  | none ↦ refused (Texts.expected_comparator ++ ((c ∷ cs) ++ (34 ∷ [])))
  | some (sign, rest) ↦ elim (parse_partial rest) [
    | none ↦ refused (Texts.invalid_version ++ (trim rest ++ Texts.expected_parts))
    | some p ↦ parsed (expand sign p)
  ]
]

-- The texts between the commas.
unfoldable pub split_all : ℕ → List ℕ → List (List ℕ)
split_all separator [] = [] ∷ []
split_all separator (c ∷ cs) = elim (split_all separator cs) [
  | [] ↦ []
  | item ∷ items ↦ if c == separator then [] ∷ item ∷ items else (c ∷ item) ∷ items
]

-- The loop of `VersionReq::parse`, over the comparators between the commas.
unfoldable pub parse_items : List ℕ → List (List ℕ) → Parsed VersionReq
parse_items text [] = parsed []
parse_items text (item ∷ items) = elim (parse_item text (trim item)) [
  | refused e ↦ refused e
  | parsed cs ↦ elim (parse_items text items) [
    | refused e ↦ refused e
    | parsed more ↦ parsed (cs ++ more)
  ]
]

abbrev pub is_star : List ℕ → Bool
is_star [] = false
is_star (c ∷ []) = c == b'*'
is_star (c ∷ d ∷ cs) = false

unfoldable pub parse_req : List ℕ → Parsed VersionReq
parse_req text =
    let trimmed = trim text in
    elim trimmed [
      | [] ↦ refused Texts.empty_requirement
      | c ∷ cs ↦
          if is_star (c ∷ cs) then parsed [] else parse_items (c ∷ cs) (split_all b',' (c ∷ cs))
    ]

unfoldable pub accepts : Comparator → SemVer → Bool
accepts c v = elim c.op [
  | ge ↦ not (less v c.version)
  | gt ↦ less c.version v
  | le ↦ not (less c.version v)
  | lt ↦ less v c.version
  | eq ↦ same v c.version
]

unfoldable pub matches : VersionReq → SemVer → Bool
matches [] v = true
matches (c ∷ cs) v = let rest = matches cs v in if accepts c v then rest else false

abbrev pub op_text : Op → List ℕ
op_text ge = b'>' ∷ b'=' ∷ []
op_text gt = b'>' ∷ []
op_text le = b'<' ∷ b'=' ∷ []
op_text lt = b'<' ∷ []
op_text eq = b'=' ∷ []

-- The comparators after the first, each after a comma.
unfoldable pub print_following : List Comparator → List ℕ
print_following [] = []
print_following (c ∷ cs) =
    b',' ∷ b' ' ∷ (op_text c.op ++ (print_version c.version ++ print_following cs))

unfoldable pub print_req : VersionReq → List ℕ
print_req [] = b'*' ∷ []
print_req (c ∷ cs) = op_text c.op ++ (print_version c.version ++ print_following cs)

abbrev pub bounds_below : Op → Bool
bounds_below ge = true
bounds_below gt = true
bounds_below eq = true
bounds_below le = false
bounds_below lt = false

unfoldable pub lower_bound : VersionReq → Option SemVer
lower_bound [] = none
lower_bound (c ∷ cs) =
    let rest = lower_bound cs in if bounds_below c.op then some c.version else rest

pub record EngineReqCheck : Type 0 where
  pub passes : Bool
  pub warning : Bool
  pub message : List ℕ

unfoldable pub check_engine_req : List ℕ → Option (List ℕ) → SemVer → EngineReqCheck
check_engine_req pack_name none engine = record {
  passes = true;
  warning = true;
  message =
      Texts.pack
      ++ (pack_name ++ (Texts.no_requirement ++ (print_version engine ++ Texts.closing)));
}
check_engine_req pack_name (some req_text) engine = elim (parse_req req_text) [
  | refused e ↦ record {
    passes = false;
    warning = false;
    message =
        Texts.pack
        ++ (pack_name
            ++ (Texts.invalid_engine_version_req ++ (req_text ++ (Texts.in_pack_toml ++ e))));
  }
  | parsed req ↦
      if matches req engine
      then record { passes = true; warning = false; message = [] }
      else record {
        passes = false;
        warning = false;
        message =
            Texts.pack
            ++ (pack_name
                ++ (Texts.requires_engine
                    ++ (print_req req ++ (Texts.this_build_is ++ print_version engine))));
      }
]
