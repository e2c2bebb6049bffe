-- ===== src/GitConfig/Quotes.antt =====
-- Values of crates/gitility-core/src/git_config.rs in double quotes: a printer, against
-- `parse_value`.
use mathlib.Core.Path.{subst}
use mathlib.Core.List.{append-nil, append_assoc}
use gitility.Base.{
  or-left, or-right, ℕ, zero, suc, ◌+◌, ◌<◌, ◌≡◌, refl, ap, sym, ◌∙◌, true, false, ◌||◌, List, [],
  ◌∷◌, ◌++◌, some, ◌==◌, if◌then◌else◌, if-cases, length, All, more, done, loop, loop-more,
  loop-done, arith, Bool-cases, inl, inr,
}
use gitility.GitConfig.{
  Parser, parsed, line_up, next_char, raw_char, fold_return, at_char, is_space,
}
use gitility.GitConfig.Methods.{
  fuel, Value, escaped, escape, end_value, value_turn, value_char, parse_value,
}

-- A byte in quotes: a quote, a backslash and a line feed are escaped.
unfoldable pub quote_byte : ℕ → List ℕ → List ℕ
quote_byte b rest =
    if b == b'"' || b == b'\\'
    then b'\\' ∷ b ∷ rest
    else if b == b'\n'
    then b'\\' ∷ b'n' ∷ rest
    else b ∷ rest

-- The rest of a quoted value, its line end, and what follows.
unfoldable pub quote_rest : List ℕ → List ℕ → List ℕ
unfolding quote_byte
quote_rest [] rest = b'"' ∷ b'\n' ∷ rest
quote_rest (b ∷ value) rest = quote_byte b (quote_rest value rest)

-- A byte that a carriage return leaves alone.
IsPlain : List ℕ → Type 0
IsPlain [] = ⊥
IsPlain (b ∷ rest) = ((b == 255) ≡ false) × ((b == b'\n') ≡ false)

quote_rest-IsPlain :
    (value rest : List ℕ) → All (λ b. b < 255) value → IsPlain (quote_rest value rest)
unfolding IsPlain quote_rest quote_byte
quote_rest-IsPlain [] rest h = (refl, refl)
quote_rest-IsPlain (b ∷ value) rest h =
    if-cases IsPlain (b == b'"' || b == b'\\') (λ _. (refl, refl))
      (λ _. if-cases IsPlain (b == b'\n') (λ _. (refl, refl)) (λ e. (ground (arith, h.0), e)))

-- The parser within quotes, behind some bytes of the value.
abbrev inside : Parser → List ℕ → List ℕ → Value
inside p read rest = record {
  quoted = true;
  comment = false;
  trim_len = 0;
  parser = record p { rest = rest; value = read };
}

-- A plain byte in front of another is read as itself.
next_char-plain :
    (p : Parser) (b : ℕ) (rest : List ℕ)
    → (b == 255) ≡ false
    → (b == b'\n') ≡ false
    → IsPlain rest
    → next_char (record p { rest = b ∷ rest }) ≡ (b, record p { rest = rest })
unfolding next_char raw_char fold_return at_char IsPlain
next_char-plain p b [] h k plain = absurd plain
next_char-plain p b (c ∷ rest) h k plain = ground (arith, plain.0, plain.1)

plain_char :
    (p : Parser) (b : ℕ) (read rest : List ℕ)
    → (b == b'\n') ≡ false
    → (b == b'\\') ≡ false
    → (b == b'"') ≡ false
    → value_char (inside p read rest) (b, record p { rest = rest; value = read })
      ≡ more (inside p (read ++ (b ∷ [])) rest)
unfolding value_char
plain_char p b read rest k l m = ground arith

escaped_turn :
    (p : Parser) (b : ℕ) (read rest : List ℕ)
    → (b == b'"' || b == b'\\') ≡ true
    → IsPlain rest
    → value_turn (inside p read (b'\\' ∷ b ∷ rest)) ≡ more (inside p (read ++ (b ∷ [])) rest)
unfolding value_turn value_char next_char raw_char at_char escape escaped is_space
escaped_turn p b read rest e plain = elim (Bool-cases (b == b'"')) [
  | inl f ↦ subst Reads {x = b'"'} (ground (arith, f)) (refl)
  | inr f ↦ subst Reads {x = b'\\'} (ground (arith, e, f)) (refl)
]
  where
    Reads : ℕ → Type 0
    Reads c =
        value_turn (inside p read (b'\\' ∷ c ∷ rest)) ≡ more (inside p (read ++ (c ∷ [])) rest)

feed_turn :
    (p : Parser) (read rest : List ℕ)
    → value_turn (inside p read (b'\\' ∷ b'n' ∷ rest)) ≡ more (inside p (read ++ (b'\n' ∷ [])) rest)
unfolding value_turn value_char next_char raw_char at_char escape escaped is_space
feed_turn p read rest = refl

quote_byte-turn :
    (p : Parser) (b : ℕ) (read rest : List ℕ)
    → b < 255
    → IsPlain rest
    → value_turn (inside p read (quote_byte b rest)) ≡ more (inside p (read ++ (b ∷ [])) rest)
unfolding quote_byte value_turn
quote_byte-turn p b read rest h plain =
    if-cases (λ t. value_turn (inside p read t) ≡ more (inside p (read ++ (b ∷ [])) rest))
      (b == b'"' || b == b'\\') (λ e. escaped_turn p b read rest e plain)
      (λ e.
        if-cases (λ t. value_turn (inside p read t) ≡ more (inside p (read ++ (b ∷ [])) rest))
          (b == b'\n')
          (λ f.
            subst
              (λ c.
                value_turn (inside p read (b'\\' ∷ b'n' ∷ rest))
                ≡ more (inside p (read ++ (c ∷ [])) rest))
              {x = b'\n'} (ground (arith, f)) (feed_turn p read rest))
          (λ f.
            ap (value_char (inside p read (b ∷ rest)))
              (next_char-plain (record p { value = read }) b rest (ground (arith, h)) f plain)
            ∙ plain_char p b read rest f (or-right (b == b'"') (b == b'\\') e)
                (or-left (b == b'"') (b == b'\\') e)))

length-quote_byte : (b : ℕ) (rest : List ℕ) → length rest < length (quote_byte b rest)
unfolding quote_byte
length-quote_byte b rest = ground arith

-- The parser behind the closing quote.
abbrev behind : Parser → List ℕ → List ℕ → Value
behind p read rest = record (inside p read rest) { quoted = false }

close_turn :
    (p : Parser) (read rest : List ℕ)
    → value_turn (inside p read (b'"' ∷ b'\n' ∷ rest)) ≡ more (behind p read (b'\n' ∷ rest))
unfolding value_turn value_char next_char raw_char at_char is_space
close_turn p read rest = refl

end_turn :
    (p : Parser) (read rest : List ℕ)
    → value_turn (behind p read (b'\n' ∷ rest))
      ≡ done (parsed, line_up (record p { rest = rest; value = read }))
unfolding value_turn value_char next_char raw_char at_char end_value
end_turn p read rest = refl

open_turn :
    (p : Parser) (rest : List ℕ) → value_turn (behind p [] (b'"' ∷ rest)) ≡ more (inside p [] rest)
unfolding value_turn value_char next_char raw_char at_char is_space
open_turn p rest = refl

-- The loop of `parse_value` from within the quotes to the line end.
rest-Reads :
    (value : List ℕ) (p : Parser) (read rest : List ℕ) (fuel : ℕ)
    → All (λ b. b < 255) value
    → length (quote_rest value rest) < fuel
    → loop value_turn fuel (inside p read (quote_rest value rest))
      ≡ some (parsed, line_up (record p { rest = rest; value = read ++ value }))
unfolding quote_rest
rest-Reads [] p read rest zero h k = absurd (omega arith)
rest-Reads [] p read rest (suc zero) h k = absurd (omega arith)
rest-Reads [] p read rest (suc (suc fuel)) h k =
    loop-more value_turn (suc fuel) (close_turn p read rest)
    ∙ loop-done value_turn fuel (end_turn p read rest)
    ∙ ap (λ v. some (parsed, line_up (record p { rest = rest; value = v }))) (sym (append-nil read))
rest-Reads (b ∷ value) p read rest zero h k = absurd (omega arith)
rest-Reads (b ∷ value) p read rest (suc fuel) h k =
    loop-more value_turn fuel
      (quote_byte-turn p b read (quote_rest value rest) h.0 (quote_rest-IsPlain value rest h.1))
    ∙ rest-Reads value p (read ++ (b ∷ [])) rest fuel h.1
        (omega (arith, k, length-quote_byte b (quote_rest value rest)))
    ∙ ap (λ v. some (parsed, line_up (record p { rest = rest; value = v })))
        (append_assoc read (b ∷ []) value)

-- A value without the byte 255, printed in quotes with quotes, backslashes and line feeds escaped, is
-- read back by `parse_value`, which stops behind the line end, counts the line and changes nothing
-- else.
pub parse_value-quote_rest :
    (value : List ℕ) (p : Parser) (rest : List ℕ)
    → All (λ b. b < 255) value
    → p.rest ≡ b'"' ∷ quote_rest value rest
    → parse_value p ≡ some (parsed, line_up (record p { rest = rest; value = value }))
unfolding parse_value
parse_value-quote_rest value p rest h e =
    ap (λ bytes. parse_value (record p { rest = bytes })) e
    ∙ ap (λ n. loop value_turn n (behind p [] text)) {x = length text + 2} {y = suc enough}
        (omega arith)
    ∙ loop-more value_turn enough (open_turn p (quote_rest value rest))
    ∙ rest-Reads value p [] rest enough h (omega arith)
  where
    text : List ℕ
    text = b'"' ∷ quote_rest value rest

    enough : ℕ
    enough = suc (suc (length (quote_rest value rest)))
