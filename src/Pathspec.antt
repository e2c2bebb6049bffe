-- ===== src/Pathspec.antt =====
-- crates/gitility-core/src/pathspec.rs: byte-oriented Git pathspec filters. The wildmatch of the
-- gix_glob package is a parameter.
pub mod Prefixes
pub mod Escapes
pub mod Pruning
mod Tests
use gitility.Base.{
  ℕ, Bool, true, false, ◌&&◌, ◌||◌, not, List, [], ◌∷◌, Option, none, some, ◌==◌, if◌then◌else◌,
  length, take, get_elem?, bytes_eq, starts_with, strip_prefix, any, position, rposition,
}

-- `*`, `?` or `[`.
abbrev pub is_meta : ℕ → Bool
is_meta byte = byte == b'*' || (byte == b'?' || byte == b'[')

abbrev pub is_slash : ℕ → Bool
is_slash byte = byte == b'/'

-- `:(glob)`.
abbrev pub glob_magic : List ℕ
glob_magic = b':' ∷ b'(' ∷ b'g' ∷ b'l' ∷ b'o' ∷ b'b' ∷ b')' ∷ []

-- The pattern without its magic, and whether it had one.
unfoldable pub split_magic : List ℕ → List ℕ × Bool
split_magic pattern = elim (strip_prefix pattern glob_magic) [
  | none ↦ (pattern, false)
  | some rest ↦ (rest, true)
]

-- `path.get(i) == Some(&b'/')`.
abbrev pub slash_at : List ℕ → ℕ → Bool
slash_at path i = elim (get_elem? path i) [ none ↦ false | some byte ↦ byte == b'/' ]

unfoldable pub path_prefixes_overlap : List ℕ → List ℕ → Bool
path_prefixes_overlap left right =
    bytes_eq left right
    || ((starts_with left right && slash_at left (length right))
        || (starts_with right left && slash_at right (length left)))

-- `&pattern[..first_meta.unwrap_or(pattern.len())]`.
unfoldable pub fixed_part : List ℕ → Option ℕ → List ℕ
fixed_part pattern none = pattern
fixed_part pattern (some n) = take n pattern

-- The glob case: the directory portion of the fixed text, if it has one.
unfoldable pub may_match_fixed : List ℕ → List ℕ → Bool
may_match_fixed fixed prefix = elim (rposition is_slash fixed) [
  | none ↦ true
  | some last_slash ↦ path_prefixes_overlap (take last_slash fixed) prefix
]

abbrev is_none : Option ℕ → Bool
is_none none = true
is_none (some _) = false

-- The body of `pattern_may_match_descendant`, behind the magic.
unfoldable pub may_match_behind : List ℕ × Bool → List ℕ → Bool
unfolding fixed_part may_match_fixed
may_match_behind (pattern, force_glob) prefix =
    if not force_glob && is_none (position is_meta pattern)
    then path_prefixes_overlap pattern prefix
    else may_match_fixed (fixed_part pattern (position is_meta pattern)) prefix

unfoldable pub pattern_may_match_descendant : List ℕ → List ℕ → Bool
unfolding may_match_behind split_magic
pattern_may_match_descendant pattern prefix = may_match_behind (split_magic pattern) prefix

-- A literal pattern selects its path and every path below it.
unfoldable pub matches_literal : List ℕ → List ℕ → Bool
matches_literal pattern path =
    bytes_eq path pattern || (starts_with path pattern && slash_at path (length pattern))

abbrev is_empty : List (List ℕ) → Bool
is_empty [] = true
is_empty (p ∷ ps) = false

-- The wildmatch takes the pattern and the path; its mode is fixed.
module _ (wildmatch : List ℕ → List ℕ → Bool) where
  unfoldable pub matches_behind : List ℕ × Bool → List ℕ → Bool
  unfolding matches_literal
  matches_behind (pattern, force_glob) path =
      if not force_glob && not (any is_meta pattern)
      then matches_literal pattern path
      else wildmatch pattern path

  -- `matches`.
  unfoldable pub matches : List ℕ → List ℕ → Bool
  unfolding matches_behind split_magic
  matches pattern path = matches_behind (split_magic pattern) path

  -- `PathspecMatcher::matches`: the matcher is its list of patterns.
  unfoldable pub matcher_matches : List (List ℕ) → List ℕ → Bool
  unfolding matches
  matcher_matches patterns path =
      is_empty patterns || any (λ pattern. matches pattern path) patterns

-- `PathspecMatcher::may_match_descendant`.
unfoldable pub may_match_descendant : List (List ℕ) → List ℕ → Bool
unfolding pattern_may_match_descendant
may_match_descendant patterns prefix =
    is_empty patterns || any (λ pattern. pattern_may_match_descendant pattern prefix) patterns
