-- ===== src/GitConfig/Termination.antt =====
-- The loops over entries and the file in crates/gitility-core/src/git_config.rs, and their fuel.
use gitility.Base.{
  or-left, ℕ, ◌≤◌, ◌<◌, ◌≡◌, refl, ap, ◌∙◌, false, not, ◌||◌, List, [], Option, none, some, ◌==◌,
  if-cases, length, Flow, Descends, loop-Returns, arith,
}
use gitility.GitConfig.{
  Parser, Parsed, parsed, failed, next_char, is_alpha, is_key_char, is_space, new_parser,
}
use gitility.GitConfig.Methods.{
  fuel, parse_section_header, key_turn, skip_turn, visit, visit_value, entry_value, skip_blanks,
  parse_entry, Verdict, Reading, entry_done, header_done, begin_entry, parse_turn, flatten, parse,
}
use gitility.GitConfig.Reads.{
  left, left-next_char, left-next_char_inside, left-next_char_open, weight_of, weight-fuel,
  weight-blank, Ends, chained,
}
use gitility.GitConfig.Parts.{parse_value-Ends, parse_section_header-Ends}

key_turn-Descends :
    (n : ℕ) (p : Parser)
    → left p ≤ n
    → Descends left (λ q. left q ≤ n) (λ r. left r.1 ≤ n) p (key_turn p)
unfolding key_turn
key_turn-Descends n p h =
    if-cases D (q.eof || not (is_key_char c)) (λ _. omega (arith, left-next_char p))
      (λ e.
        let less = left-next_char_open p (or-left q.eof (not (is_key_char c)) e) in
        (less, omega arith))
  where
    c : ℕ
    c = (next_char p).0

    q : Parser
    q = (next_char p).1

    D : Flow Parser (ℕ × Parser) → Type 0
    D = Descends left (λ q. left q ≤ n) (λ r. left r.1 ≤ n) p

skip_turn-Descends :
    (n : ℕ) (s : ℕ × Parser)
    → left s.1 ≤ n
    → Descends weight_of (λ s. left s.1 ≤ n) (λ r. left r.1 ≤ n) s (skip_turn s)
unfolding skip_turn
skip_turn-Descends n (c, p) h =
    if-cases (Descends weight_of (λ s. left s.1 ≤ n) (λ r. left r.1 ≤ n) (c, p))
      (c == b' ' || c == b'\t')
      (λ e. (weight-blank c p (ground arith), omega (arith, left-next_char p))) (λ _. h)

visit_value-left : (r : Parsed × Parser) → left (visit_value r).1 ≡ left r.1
unfolding visit_value visit
visit_value-left (failed, p) = refl
visit_value-left (parsed, p) = refl

entry_value-Ends : (p : Parser) (r : ℕ × Parser) → left r.1 ≤ left p → Ends p (entry_value r)
unfolding Ends entry_value visit
entry_value-Ends p (c, q) h =
    if-cases (Ends p) (c == b'\n') (λ _. ((parsed, visit false q), refl, h))
      (λ _.
        if-cases (Ends p) (c == b'=')
          (λ _.
            let (r, e, k) = parse_value-Ends q in
            (
              visit_value r,
              chained (λ r. some (visit_value r)) e refl,
              omega (arith, visit_value-left r),
            ))
          (λ _. ((failed, q), refl, h)))

skip_blanks-Ends : (p : Parser) (r : ℕ × Parser) → left r.1 ≤ left p → Ends p (skip_blanks r)
unfolding Ends skip_blanks
skip_blanks-Ends p (c, q) h =
    let (r, e, k) =
      loop-Returns skip_turn weight_of (λ s. left s.1 ≤ left q) (λ r. left r.1 ≤ left q)
        (skip_turn-Descends (left q)) (fuel q) (c, q) (weight-fuel c q) (omega arith) in
    let (s, f, l) = entry_value-Ends p r (omega arith) in (s, chained entry_value e f, l)

parse_entry-Ends : (p : Parser) → Ends p (parse_entry p)
unfolding Ends parse_entry
parse_entry-Ends p =
    let (r, e, k) =
      loop-Returns key_turn left (λ q. left q ≤ left p) (λ r. left r.1 ≤ left p)
        (key_turn-Descends (left p)) (fuel p) p (omega arith) (omega arith) in
    let (s, f, l) = skip_blanks-Ends p r k in (s, chained skip_blanks e f, l)

-- A turn of `parse` is done with an outcome, or leaves fewer bytes.
Concludes : Reading → Flow Reading (Option (Verdict × Parser)) → Type 0
Concludes s =
    Descends (λ s. left s.parser) (λ _. Unit) (λ o. (r : Verdict × Parser) × (o ≡ some r)) s

entry_done-Concludes :
    (s : Reading) (p : Parser) (o : Option (Parsed × Parser))
    → left p < left s.parser
    → Ends p o
    → Concludes s (entry_done s o)
unfolding Concludes Ends entry_done
entry_done-Concludes s p none h (r, e, k) = absurd (cc)
entry_done-Concludes s p (some (failed, q)) h v = (_, refl)
entry_done-Concludes s p (some (parsed, q)) h (r, e, k) = (grind (arith, e), tt)

header_done-Concludes :
    (s : Reading) (p : Parser) (o : Option (Parsed × Parser))
    → left p < left s.parser
    → Ends p o
    → Concludes s (header_done s o)
unfolding Concludes Ends header_done
header_done-Concludes s p none h (r, e, k) = absurd (cc)
header_done-Concludes s p (some (failed, q)) h v = (_, refl)
header_done-Concludes s p (some (parsed, q)) h (r, e, k) =
    if-cases (Concludes s) (length q.name == 0) (λ _. (_, refl)) (λ _. (grind (arith, e), tt))

parse_turn-Concludes : (s : Reading) → Concludes s (parse_turn s)
unfolding Concludes parse_turn begin_entry
parse_turn-Concludes s =
    if-cases (Concludes s) (c == b'\n')
      (λ _.
        if-cases (Concludes s) q.eof (λ _. (_, refl)) (λ e. (left-next_char_open s.parser e, tt)))
      (λ e.
        let less = left-next_char_inside s.parser e in
        if-cases (Concludes s) (s.comment || is_space c) (λ _. (less, tt))
          (λ _.
            if-cases (Concludes s) (c == b'#' || c == b';') (λ _. (less, tt))
              (λ _.
                if-cases (Concludes s) (c == b'[')
                  (λ _.
                    header_done-Concludes s (record q { name = [] })
                      (parse_section_header (record q { name = [] })) less
                      (parse_section_header-Ends (record q { name = [] })))
                  (λ _.
                    if-cases (Concludes s) (is_alpha c)
                      (λ _.
                        entry_done-Concludes s (begin_entry c q) (parse_entry (begin_entry c q))
                          less (parse_entry-Ends (begin_entry c q)))
                      (λ _. (_, refl))))))
  where
    c : ℕ
    c = (next_char s.parser).0

    q : Parser
    q = (next_char s.parser).1

-- The parser comes to an end on every input, with a verdict and the visits: the fuel of each of its
-- loops is enough.
pub parse-Returns :
    (input : List ℕ) → (r : Verdict × List (List ℕ × Option (List ℕ))) × (parse input ≡ some r)
unfolding parse flatten Concludes
parse-Returns input =
    let (o, e, ends) =
      loop-Returns parse_turn (λ s. left s.parser) (λ _. Unit)
        (λ o. (r : Verdict × Parser) × (o ≡ some r)) (λ s _. parse_turn-Concludes s)
        (fuel (new_parser input)) (record { comment = false; parser = new_parser input })
        (omega arith) tt in
    let ((v, p), f) = ends in ((v, p.visits), ap flatten (e ∙ ap some f))
