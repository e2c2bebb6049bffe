-- ===== src/GitConfig/Methods.antt =====
-- The methods of the parser of crates/gitility-core/src/git_config.rs that loop. A loop runs on
-- fuel, one unit for each byte that is left and two more; `none` says that the fuel ran out.
use gitility.Base.{
  ℕ, ◌+◌, Bool, true, false, not, ◌&&◌, ◌||◌, List, [], ◌∷◌, ◌++◌, Option, none, some, ◌==◌,
  if◌then◌else◌, length, take, Flow, more, done, loop,
}
use gitility.GitConfig.{
  Parser, Parsed, parsed, failed, line_up, line_down, push_name, push_value, next_char, is_alpha,
  is_key_char, is_space, ascii_lower, c_string, new_parser,
}

abbrev pub fuel : Parser → ℕ
fuel p = length p.rest + 2

-- The state of `parse_value`: quoted, comment, trim_len and the parser.
pub record Value : Type 0 where
  pub quoted : Bool
  pub comment : Bool
  pub trim_len : ℕ
  pub parser : Parser

-- The match on the character behind a backslash: `none` is the error.
unfoldable pub escaped : ℕ → Option ℕ
escaped c =
    if c == b't'
    then some b'\t'
    else if c == b'b'
    then some 8
    else if c == b'n'
    then some b'\n'
    else if c == b'\\' || c == b'"'
    then some c
    else none

-- What a backslash in a value does with the next character.
unfoldable pub escape : Value → ℕ × Parser → Flow Value (Parsed × Parser)
unfolding escaped
escape v (c, p) = if c == b'\n' then more (record v { parser = p }) else elim (escaped c) [
  | none ↦ done (failed, p)
  | some d ↦ more (record v { parser = push_value d p })
]

unfoldable pub end_value : Value → Parser → Flow Value (Parsed × Parser)
end_value v p =
    if v.quoted
    then done (failed, line_down p)
    else if v.trim_len == 0
    then done (parsed, p)
    else done (parsed, record p { value = take v.trim_len p.value })

-- A blank outside of quotes is kept for the case that more follows.
unfoldable pub blank : Value → ℕ → Parser → Flow Value (Parsed × Parser)
blank v c p =
    let trim = if v.trim_len == 0 then length p.value else v.trim_len in
    more (record v { trim_len = trim; parser = if length p.value == 0 then p else push_value c p })

-- A turn of the loop of `parse_value`, on its character.
unfoldable pub value_char : Value → ℕ × Parser → Flow Value (Parsed × Parser)
unfolding end_value blank escape
value_char v (c, p) =
    if c == b'\n'
    then end_value v p
    else if v.comment
    then more (record v { parser = p })
    else if is_space c && not v.quoted
    then blank v c p
    else if not v.quoted && (c == b';' || c == b'#')
    then more (record v { comment = true; parser = p })
    else if c == b'\\'
    then escape (record v { trim_len = 0 }) (next_char p)
    else if c == b'"'
    then more (record v { quoted = not v.quoted; trim_len = 0; parser = p })
    else more (record v { trim_len = 0; parser = push_value c p })

unfoldable pub value_turn : Value → Flow Value (Parsed × Parser)
unfolding value_char
value_turn v = value_char v (next_char v.parser)

unfoldable pub parse_value : Parser → Option (Parsed × Parser)
parse_value p =
    loop value_turn (fuel p)
      (record { quoted = false; comment = false; trim_len = 0; parser = record p { value = [] } })

-- The blanks and the opening quote of a subsection, then its name.
unfoldable pub blanks_turn : ℕ × Parser → Flow (ℕ × Parser) (Option ℕ × Parser)
blanks_turn (c, p) =
    if c == b'\n'
    then done (none, line_down p)
    else let (d, q) = next_char p in if is_space d then more (d, q) else done (some d, q)

unfoldable pub quoted_escape : ℕ × Parser → Flow Parser (Parsed × Parser)
quoted_escape (c, p) = if c == b'\n' then done (failed, line_down p) else more (push_name c p)

unfoldable pub quoted_turn : Parser → Flow Parser (Parsed × Parser)
unfolding quoted_escape
quoted_turn p =
    let (c, q) = next_char p in
    if c == b'\n'
    then done (failed, line_down q)
    else if c == b'"'
    then done (parsed, q)
    else if c == b'\\'
    then quoted_escape (next_char q)
    else more (push_name c q)

-- The closing bracket.
unfoldable pub close_header : Parsed × Parser → Parsed × Parser
close_header (failed, p) = (failed, p)
close_header (parsed, p) =
    let (c, q) = next_char p in if c == b']' then (parsed, q) else (failed, q)

unfoldable pub quoted_name : Option ℕ × Parser → Option (Parsed × Parser)
unfolding quoted_turn close_header
quoted_name (none, p) = some (failed, p)
quoted_name (some c, p) =
    if c == b'"'
    then elim (loop quoted_turn (fuel p) (push_name b'.' p)) [
      | none ↦ none
      | some r ↦ some (close_header r)
    ]
    else some (failed, p)

unfoldable pub parse_quoted_subsection : ℕ → Parser → Option (Parsed × Parser)
unfolding blanks_turn quoted_name
parse_quoted_subsection c p = elim (loop blanks_turn (fuel p) (c, p)) [
  | none ↦ none
  | some r ↦ quoted_name r
]

unfoldable pub header_turn : Parser → Flow Parser (Option (Parsed × Parser))
unfolding parse_quoted_subsection
header_turn p =
    let (c, q) = next_char p in
    if q.eof
    then done (some (failed, q))
    else if c == b']'
    then done (some (parsed, q))
    else if is_space c
    then done (parse_quoted_subsection c q)
    else if is_key_char c || c == b'.'
    then more (push_name (ascii_lower c) q)
    else done (some (failed, q))

unfoldable pub parse_section_header : Parser → Option (Parsed × Parser)
unfolding header_turn
parse_section_header p = elim (loop header_turn (fuel p) p) [ none ↦ none | some r ↦ r ]

-- The two loops of `parse_entry`: the rest of the key, then blanks.
unfoldable pub key_turn : Parser → Flow Parser (ℕ × Parser)
key_turn p =
    let (c, q) = next_char p in
    if q.eof || not (is_key_char c) then done (c, q) else more (push_name (ascii_lower c) q)

unfoldable pub skip_turn : ℕ × Parser → Flow (ℕ × Parser) (ℕ × Parser)
skip_turn (c, p) = if c == b' ' || c == b'\t' then more (next_char p) else done (c, p)

-- The visit at the end of `parse_entry`; the line is taken down for it and up again.
unfoldable pub visit : Bool → Parser → Parser
visit has_value p =
    let q = line_down p in
    line_up (record q {
      visits =
          q.visits ++ ((c_string q.name, if has_value then some (c_string q.value) else none) ∷ []);
    })

unfoldable pub visit_value : Parsed × Parser → Parsed × Parser
unfolding visit
visit_value (failed, p) = (failed, p)
visit_value (parsed, p) = (parsed, visit true p)

unfoldable pub entry_value : ℕ × Parser → Option (Parsed × Parser)
unfolding parse_value visit_value
entry_value (c, p) =
    if c == b'\n'
    then some (parsed, visit false p)
    else if c == b'='
    then elim (parse_value p) [ none ↦ none | some r ↦ some (visit_value r) ]
    else some (failed, p)

unfoldable pub skip_blanks : ℕ × Parser → Option (Parsed × Parser)
unfolding skip_turn entry_value
skip_blanks (c, p) = elim (loop skip_turn (fuel p) (c, p)) [ none ↦ none | some r ↦ entry_value r ]

unfoldable pub parse_entry : Parser → Option (Parsed × Parser)
unfolding key_turn skip_blanks
parse_entry p = elim (loop key_turn (fuel p) p) [ none ↦ none | some r ↦ skip_blanks r ]

-- The outcome of a method within the loop of `parse`: the error has the line of the parser. `parse`
-- calls the visitor as it goes, so that the visits stand beside an error too.
pub data Verdict : Type 0 where
  finished : Verdict
  parse_error : ℕ → Verdict

pub record Reading : Type 0 where
  pub comment : Bool
  pub parser : Parser

unfoldable pub entry_done :
    Reading → Option (Parsed × Parser) → Flow Reading (Option (Verdict × Parser))
entry_done s none = done none
entry_done s (some (failed, p)) = done (some (parse_error p.line, p))
entry_done s (some (parsed, p)) = more (record s { parser = p })

unfoldable pub header_done :
    Reading → Option (Parsed × Parser) → Flow Reading (Option (Verdict × Parser))
header_done s none = done none
header_done s (some (failed, p)) = done (some (parse_error p.line, p))
header_done s (some (parsed, p)) =
    if length p.name == 0
    then done (some (parse_error p.line, p))
    else let q = push_name b'.' p in
      more (record s { parser = record q { base_len = length q.name } })

unfoldable pub begin_entry : ℕ → Parser → Parser
begin_entry c p = push_name (ascii_lower c) (record p { name = take p.base_len p.name })

-- A turn of the loop of `parse`.
unfoldable pub parse_turn : Reading → Flow Reading (Option (Verdict × Parser))
unfolding parse_section_header parse_entry begin_entry entry_done header_done
parse_turn s =
    let (c, p) = next_char s.parser in
    if c == b'\n'
    then (if p.eof
        then done (some (finished, p))
        else more (record { comment = false; parser = p }))
    else if s.comment || is_space c
    then more (record s { parser = p })
    else if c == b'#' || c == b';'
    then more (record { comment = true; parser = p })
    else if c == b'['
    then header_done s (parse_section_header (record p { name = [] }))
    else if is_alpha c
    then entry_done s (parse_entry (begin_entry c p))
    else done (some (parse_error p.line, p))

unfoldable pub flatten :
    Option (Option (Verdict × Parser)) → Option (Verdict × List (List ℕ × Option (List ℕ)))
flatten (some (some (v, p))) = some (v, p.visits)
flatten _ = none

-- `parse`: the verdict, and the visits in their order.
unfoldable pub parse : List ℕ → Option (Verdict × List (List ℕ × Option (List ℕ)))
unfolding parse_turn flatten
parse input =
    let p = new_parser input in
    flatten (loop parse_turn (fuel p) (record { comment = false; parser = p }))
