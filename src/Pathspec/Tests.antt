-- ===== src/Pathspec/Tests.antt =====
-- Pathspecs at concrete patterns, with a wildmatch that looks at the fixed text only and one that
-- reads the escape.
use gitility.Base.{
  ℕ, ◌≡◌, refl, Bool, true, false, ◌||◌, ◌&&◌, ◌==◌, rposition, strip_prefix, List, [], ◌∷◌, arith,
  position, starts_with, bytes_eq, any,
}
use gitility.Pathspec.{is_meta, matcher_matches, may_match_descendant, path_prefixes_overlap}
use gitility.Pathspec.Prefixes.{under}
use gitility.Pathspec.Pruning.{is_backslash, RespectsLiterals, matcher_may_match}
use gitility.Pathspec.Escapes.{Spelled, name_of, text_of, entries_of, escaped_pruned}

-- Matches what begins with the bytes before the first special one.
fixed_text : List ℕ → List ℕ
fixed_text [] = []
fixed_text (b ∷ pattern) = elim (is_meta b || is_backslash b) [
  | true ↦ []
  | false ↦ b ∷ fixed_text pattern
]

prefix_match : List ℕ → List ℕ → Bool
prefix_match pattern path = starts_with path (fixed_text pattern)

prefix_match-respects : RespectsLiterals prefix_match
unfolding prefix_match fixed_text any starts_with
prefix_match-respects [] rest path m e h = refl
prefix_match-respects (b ∷ fixed) rest [] m e h = ground arith
prefix_match-respects (b ∷ fixed) rest (c ∷ path) m e h =
    ground (arith, prefix_match-respects fixed rest path)

abbrev src_glob : List ℕ
src_glob = b's' ∷ b'r' ∷ b'c' ∷ b'/' ∷ b'*' ∷ []

abbrev src : List ℕ
src = b's' ∷ b'r' ∷ b'c' ∷ []

abbrev src_lib : List ℕ
src_lib = b's' ∷ b'r' ∷ b'c' ∷ b'/' ∷ b'l' ∷ []

selected : matcher_matches prefix_match (src_glob ∷ []) src_lib ≡ true
unfolding matcher_matches prefix_match fixed_text any starts_with strip_prefix
selected = refl

matcher_may_match_example : may_match_descendant (src_glob ∷ []) src ≡ true
unfolding under any
matcher_may_match_example =
    matcher_may_match prefix_match prefix_match-respects (src_glob ∷ []) src src_lib refl selected
      refl

pruned : may_match_descendant (src_glob ∷ []) (b'd' ∷ b'o' ∷ b'c' ∷ []) ≡ false
unfolding may_match_descendant any strip_prefix position rposition path_prefixes_overlap starts_with
pruned = refl

-- A wildmatch that reads `\\b` as the byte `b`, and a star as anything.
escape_match : List ℕ → List ℕ → Bool
escape_match [] [] = true
escape_match [] (c ∷ path) = false
escape_match (b ∷ []) path = b == b'*' || bytes_eq path (b ∷ [])
escape_match (b ∷ d ∷ pattern) [] = false
escape_match (b ∷ d ∷ pattern) (c ∷ path) = elim (b == b'\\') [
  | true ↦ c == d && escape_match pattern path
  | false ↦ b == b'*' || (c == b && escape_match (d ∷ pattern) path)
]

-- The directory `sa`, its second letter escaped: the pattern is `s\a/*`.
abbrev spelled : Spelled
spelled = (b's', false) ∷ (b'a', true) ∷ []

abbrev below_spelled : List ℕ
below_spelled = b's' ∷ b'a' ∷ b'/' ∷ b'x' ∷ []

escaped_pruned_example :
    (matcher_matches escape_match (entries_of spelled [] ∷ []) below_spelled ≡ true)
    × (under (name_of spelled) below_spelled ≡ true)
    × (may_match_descendant (entries_of spelled [] ∷ []) (name_of spelled) ≡ false)
unfolding escape_match any strip_prefix text_of
escaped_pruned_example = escaped_pruned escape_match spelled [] (b'x' ∷ []) refl refl refl refl refl
