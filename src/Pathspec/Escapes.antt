-- ===== src/Pathspec/Escapes.antt =====
-- Escaped names in the patterns of crates/gitility-core/src/pathspec.rs. The pruning compares the
-- pattern's text before the first metacharacter, backslashes included, with the directory.
use gitility.Base.{
  ℕ, ◌+◌, ◌≡◌, refl, Bool, true, false, ◌||◌, List, [], ◌∷◌, ◌++◌, none, some, arith, length, take,
  starts_with, strip_prefix, any, position, rposition, bytes_eq,
}
use gitility.Pathspec.{
  is_meta, is_slash, glob_magic, matcher_matches, may_match_descendant, path_prefixes_overlap,
  matches, matches_behind, pattern_may_match_descendant, may_match_behind, may_match_fixed,
  fixed_part, split_magic,
}
use gitility.Pathspec.Prefixes.{under}
use gitility.Pathspec.Pruning.{is_backslash}

-- A byte of a name, and whether the pattern has a backslash in front of it.
abbrev pub Spelled : Type 0
Spelled = List (ℕ × Bool)

abbrev pub name_of : Spelled → List ℕ
name_of [] = []
name_of ((c, escaped) ∷ name) = c ∷ name_of name

unfoldable pub text_of : Spelled → List ℕ
text_of [] = []
text_of ((c, true) ∷ name) = b'\\' ∷ c ∷ text_of name
text_of ((c, false) ∷ name) = c ∷ text_of name

abbrev pub has_escape : Spelled → Bool
has_escape [] = false
has_escape ((c, escaped) ∷ name) = escaped || has_escape name

-- Every entry of the directory, and then some further restriction.
abbrev pub entries_of : Spelled → List ℕ → List ℕ
entries_of name rest = text_of name ++ (b'/' ∷ b'*' ∷ rest)

text-plain :
    (name : Spelled) → any is_meta (name_of name) ≡ false → any is_meta (text_of name) ≡ false
unfolding text_of any
text-plain [] h = refl
text-plain ((c, true) ∷ name) h = ground (arith, text-plain name)
text-plain ((c, false) ∷ name) h = ground (arith, text-plain name)

position-entries :
    (xs rest : List ℕ)
    → any is_meta xs ≡ false
    → position is_meta (xs ++ (b'/' ∷ b'*' ∷ rest)) ≡ some (length xs + 1)
unfolding any position
position-entries [] rest h = ground arith
position-entries (x ∷ xs) rest h = ground (arith, position-entries xs rest)

any_meta-entries : (xs rest : List ℕ) → any is_meta (xs ++ (b'/' ∷ b'*' ∷ rest)) ≡ true
unfolding any
any_meta-entries [] rest = ground arith
any_meta-entries (x ∷ xs) rest = ground (arith, any_meta-entries xs rest)

take-entries :
    (xs rest : List ℕ) → take (length xs + 1) (xs ++ (b'/' ∷ b'*' ∷ rest)) ≡ xs ++ (b'/' ∷ [])
take-entries [] rest = ground arith
take-entries (x ∷ xs) rest = ground (arith, take-entries xs rest)

rposition-last : (xs : List ℕ) → rposition is_slash (xs ++ (b'/' ∷ [])) ≡ some (length xs)
unfolding rposition
rposition-last [] = ground arith
rposition-last (x ∷ xs) = ground (arith, rposition-last xs)

take-length : (xs ys : List ℕ) → take (length xs) (xs ++ ys) ≡ xs
take-length [] ys = ground arith
take-length (x ∷ xs) ys = ground (arith, take-length xs ys)

-- The spelled text and the name part at the first escape.
text-apart :
    (name : Spelled)
    → any is_backslash (name_of name) ≡ false
    → has_escape name ≡ true
    → (starts_with (text_of name) (name_of name) ≡ false)
      × (starts_with (name_of name) (text_of name) ≡ false)
unfolding text_of any starts_with
text-apart [] b h = absurd (cc)
text-apart ((c, true) ∷ name) b h = (ground arith, ground arith)
text-apart ((c, false) ∷ name) b h =
    let r = text-apart name (ground arith) (ground arith) in
    (ground (arith, r.0), ground (arith, r.1))

text-differs :
    (name : Spelled)
    → any is_backslash (name_of name) ≡ false
    → has_escape name ≡ true
    → bytes_eq (text_of name) (name_of name) ≡ false
unfolding text_of any
text-differs [] b h = absurd (cc)
text-differs ((c, true) ∷ name) b h = ground arith
text-differs ((c, false) ∷ name) b h = ground (arith, text-differs name)

no_overlap :
    (name : Spelled)
    → any is_backslash (name_of name) ≡ false
    → has_escape name ≡ true
    → path_prefixes_overlap (text_of name) (name_of name) ≡ false
unfolding path_prefixes_overlap
no_overlap name b h = let (p, q) = text-apart name b h in rw (text-differs name b h, p, q) refl

under-below : (dir entry : List ℕ) → under dir (dir ++ (b'/' ∷ entry)) ≡ true
unfolding under
under-below [] entry = refl
under-below (d ∷ dir) entry = ground (arith, under-below dir entry)

fixed_directory :
    (xs prefix : List ℕ)
    → may_match_fixed (xs ++ (b'/' ∷ [])) prefix ≡ path_prefixes_overlap xs prefix
unfolding may_match_fixed
fixed_directory xs prefix = rw (rposition-last xs, may_match_fixed, take-length xs (b'/' ∷ [])) refl

pruned :
    (name : Spelled) (rest : List ℕ)
    → any is_meta (name_of name) ≡ false
    → any is_backslash (name_of name) ≡ false
    → has_escape name ≡ true
    → may_match_behind (entries_of name rest, false) (name_of name) ≡ false
unfolding may_match_behind fixed_part
pruned name rest m b h =
    rw
      (
        position-entries (text_of name) rest (text-plain name m),
        take-entries (text_of name) rest,
        fixed_directory (text_of name) (name_of name),
      )
      (no_overlap name b h)

plain_magic : (p : List ℕ) → strip_prefix p glob_magic ≡ none → split_magic p ≡ (p, false)
unfolding split_magic
plain_magic p e = rw (e, split_magic) refl

module _ (wildmatch : List ℕ → List ℕ → Bool) (name : Spelled) (rest entry : List ℕ) where
  -- For a pattern that is a directory's name with some of its bytes escaped, then `/*` and
  -- anything, and that does not begin with `:(glob)`, the name without metacharacters and
  -- backslashes: where the wildmatch reads the escapes, so that the matcher selects a path in that
  -- directory, the walk is told to skip the directory.
  pub escaped_pruned :
      any is_meta (name_of name) ≡ false
      → any is_backslash (name_of name) ≡ false
      → has_escape name ≡ true
      → strip_prefix (entries_of name rest) glob_magic ≡ none
      → wildmatch (entries_of name rest) (name_of name ++ (b'/' ∷ entry)) ≡ true
      → (matcher_matches wildmatch (entries_of name rest ∷ []) (name_of name ++ (b'/' ∷ entry))
          ≡ true)
        × (under (name_of name) (name_of name ++ (b'/' ∷ entry)) ≡ true)
        × (may_match_descendant (entries_of name rest ∷ []) (name_of name) ≡ false)
  unfolding matcher_matches matches matches_behind may_match_descendant pattern_may_match_descendant
      any
  escaped_pruned m b h magic w = (
    rw (plain_magic (entries_of name rest) magic, any_meta-entries (text_of name) rest, w) refl,
    under-below (name_of name) entry,
    rw (plain_magic (entries_of name rest) magic, pruned name rest m b h) refl,
  )
