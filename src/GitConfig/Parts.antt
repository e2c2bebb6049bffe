-- ===== src/GitConfig/Parts.antt =====
-- The loops over values and section headers of crates/gitility-core/src/git_config.rs, and their
-- fuel.
use gitility.Base.{
  ℕ, ◌≤◌, ◌<◌, ◌≡◌, refl, Bool, true, false, not, ◌&&◌, ◌||◌, Option, none, some, ◌==◌,
  if◌then◌else◌, if-cases, length, Flow, more, done, Descends, loop-Returns, arith,
}
use gitility.GitConfig.{
  Parser, Parsed, parsed, failed, push_name, push_value, next_char, is_key_char, is_space,
}
use gitility.GitConfig.Methods.{
  fuel, Value, escaped, escape, end_value, blank, value_turn, value_char, parse_value, blanks_turn,
  quoted_escape, quoted_turn, close_header, quoted_name, parse_quoted_subsection, header_turn,
  parse_section_header,
}
use gitility.GitConfig.Reads.{
  left, left-next_char, left-next_char_inside, left-next_char_open, weight_of, weight-fuel,
  weight-blank, Ends, chained,
}

-- A turn of `parse_value`.
ValueTurn : ℕ → Value → Flow Value (Parsed × Parser) → Type 0
ValueTurn n v = Descends (λ v. left v.parser) (λ v. left v.parser ≤ n) (λ r. left r.1 ≤ n) v

end_value-left : (n : ℕ) (v : Value) (p : Parser) → left p ≤ n → ValueTurn n v (end_value v p)
unfolding ValueTurn end_value
end_value-left n v p h =
    if-cases (ValueTurn n v) v.quoted (λ _. h)
      (λ _. if-cases (ValueTurn n v) (v.trim_len == 0) (λ _. h) (λ _. h))

escape-left :
    (n : ℕ) (v w : Value) (p : Parser)
    → left p < left v.parser
    → left v.parser ≤ n
    → ValueTurn n v (escape w (next_char p))
unfolding ValueTurn escape
escape-left n v w p h k =
    if-cases (ValueTurn n v) ((next_char p).0 == b'\n')
      (λ _. (omega (arith, left-next_char p), omega (arith, left-next_char p)))
      (λ _. go (escaped (next_char p).0))
  where
    go :
        (o : Option ℕ)
        → ValueTurn n v (elim o as (λ _. Flow Value (Parsed × Parser)) [
          | none ↦ done (failed, (next_char p).1)
          | some d ↦ more (record w { parser = push_value d (next_char p).1 })
        ])
    go none = omega (arith, left-next_char p)
    go (some d) = (omega (arith, left-next_char p), omega (arith, left-next_char p))

-- A character that may be kept takes no byte.
kept-left : (drop : Bool) (c : ℕ) (p : Parser) → left (if drop then p else push_value c p) ≡ left p
kept-left true c p = refl
kept-left false c p = refl

value_turn-Descends : (n : ℕ) (v : Value) → left v.parser ≤ n → ValueTurn n v (value_turn v)
unfolding ValueTurn value_turn value_char blank
value_turn-Descends n v h =
    if-cases (ValueTurn n v) (c == b'\n')
      (λ _. end_value-left n v q (omega (arith, left-next_char p)))
      (λ e.
        let less = left-next_char_inside p e in
        if-cases (ValueTurn n v) v.comment (λ _. (less, omega arith))
          (λ _.
            if-cases (ValueTurn n v) (is_space c && not v.quoted)
              (λ _. (omega (arith, keeps), omega (arith, keeps)))
              (λ _.
                if-cases (ValueTurn n v) (not v.quoted && (c == b';' || c == b'#'))
                  (λ _. (less, omega arith))
                  (λ _.
                    if-cases (ValueTurn n v) (c == b'\\')
                      (λ _. escape-left n v (record v { trim_len = 0 }) q less h)
                      (λ _.
                        if-cases (ValueTurn n v) (c == b'"') (λ _. (less, omega arith))
                          (λ _. (less, omega arith)))))))
  where
    p : Parser
    p = v.parser

    c : ℕ
    c = (next_char p).0

    q : Parser
    q = (next_char p).1

    keeps : left (if length q.value == 0 then q else push_value c q) ≡ left q
    keeps = kept-left (length q.value == 0) c q

pub parse_value-Ends : (p : Parser) → Ends p (parse_value p)
unfolding Ends parse_value ValueTurn
parse_value-Ends p =
    loop-Returns value_turn (λ v. left v.parser) (λ v. left v.parser ≤ left p)
      (λ r. left r.1 ≤ left p) (value_turn-Descends (left p)) (fuel p) _ (omega arith) (omega arith)

blanks_turn-Descends :
    (n : ℕ) (s : ℕ × Parser)
    → left s.1 ≤ n
    → Descends weight_of (λ s. left s.1 ≤ n) (λ r. left r.1 ≤ n) s (blanks_turn s)
unfolding blanks_turn weight_of
blanks_turn-Descends n (c, p) h =
    if-cases (Descends weight_of (λ s. left s.1 ≤ n) (λ r. left r.1 ≤ n) (c, p)) (c == b'\n')
      (λ _. h)
      (λ e.
        if-cases (Descends weight_of (λ s. left s.1 ≤ n) (λ r. left r.1 ≤ n) (c, p))
          (is_space (next_char p).0) (λ _. (weight-blank c p e, omega (arith, left-next_char p)))
          (λ _. omega (arith, left-next_char p)))

quoted_turn-Descends :
    (n : ℕ) (p : Parser)
    → left p ≤ n
    → Descends left (λ q. left q ≤ n) (λ r. left r.1 ≤ n) p (quoted_turn p)
unfolding quoted_turn quoted_escape
quoted_turn-Descends n p h =
    if-cases D (c == b'\n') (λ _. omega (arith, left-next_char p))
      (λ e.
        let less = left-next_char_inside p e in
        if-cases D (c == b'"') (λ _. omega arith)
          (λ _.
            if-cases D (c == b'\\')
              (λ _.
                if-cases D ((next_char q).0 == b'\n') (λ _. omega (arith, left-next_char q))
                  (λ _. (omega (arith, left-next_char q), omega (arith, left-next_char q))))
              (λ _. (less, omega arith))))
  where
    c : ℕ
    c = (next_char p).0

    q : Parser
    q = (next_char p).1

    D : Flow Parser (Parsed × Parser) → Type 0
    D = Descends left (λ q. left q ≤ n) (λ r. left r.1 ≤ n) p

close_header-left : (r : Parsed × Parser) → left (close_header r).1 ≤ left r.1
unfolding close_header
close_header-left (failed, p) = omega arith
close_header-left (parsed, p) =
    if-cases {A = Parsed × Parser} (λ r. left r.1 ≤ left p) ((next_char p).0 == b']')
      (λ _. left-next_char p) (λ _. left-next_char p)

quoted_name-Ends : (p : Parser) (r : Option ℕ × Parser) → left r.1 ≤ left p → Ends p (quoted_name r)
unfolding Ends quoted_name
quoted_name-Ends p (none, q) h = ((failed, q), refl, h)
quoted_name-Ends p (some c, q) h =
    if-cases (Ends p) (c == b'"')
      (λ _.
        let (r, e, k) =
          loop-Returns quoted_turn left (λ s. left s ≤ left q) (λ r. left r.1 ≤ left q)
            (quoted_turn-Descends (left q)) (fuel q) (push_name b'.' q) (omega arith)
            (omega arith) in
        (
          close_header r,
          chained (λ r. some (close_header r)) e refl,
          omega (arith, close_header-left r),
        ))
      (λ _. ((failed, q), refl, h))

parse_quoted_subsection-Ends : (c : ℕ) (p : Parser) → Ends p (parse_quoted_subsection c p)
unfolding Ends parse_quoted_subsection weight_of
parse_quoted_subsection-Ends c p =
    let (r, e, k) =
      loop-Returns blanks_turn weight_of (λ s. left s.1 ≤ left p) (λ r. left r.1 ≤ left p)
        (blanks_turn-Descends (left p)) (fuel p) (c, p) (weight-fuel c p) (omega arith) in
    let (s, f, l) = quoted_name-Ends p r k in (s, chained quoted_name e f, l)

header_turn-Descends :
    (n p : Parser)
    → left p ≤ left n
    → Descends left (λ q. left q ≤ left n) (Ends n) p (header_turn p)
unfolding header_turn Ends
header_turn-Descends n p h =
    if-cases D q.eof (λ _. ((failed, q), refl, omega (arith, left-next_char p)))
      (λ e.
        let less = left-next_char_open p e in
        if-cases D (c == b']') (λ _. ((parsed, q), refl, omega arith))
          (λ _.
            if-cases D (is_space c)
              (λ _. let (r, f, k) = parse_quoted_subsection-Ends c q in (r, f, omega arith))
              (λ _.
                if-cases D (is_key_char c || c == b'.') (λ _. (less, omega arith))
                  (λ _. ((failed, q), refl, omega arith)))))
  where
    c : ℕ
    c = (next_char p).0

    q : Parser
    q = (next_char p).1

    D : Flow Parser (Option (Parsed × Parser)) → Type 0
    D = Descends left (λ q. left q ≤ left n) (Ends n) p

pub parse_section_header-Ends : (p : Parser) → Ends p (parse_section_header p)
unfolding Ends parse_section_header
parse_section_header-Ends p =
    let (o, e, ends) =
      loop-Returns header_turn left (λ q. left q ≤ left p) (Ends p) (header_turn-Descends p)
        (fuel p) p (omega arith) (omega arith) in
    let (r, f, k) = ends in (r, chained (λ r. r) e f, k)
