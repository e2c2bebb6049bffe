-- ===== src/GitConfig/Tests.antt =====
-- A small `.gitmodules`.
use gitility.Base.{ℕ, ◌≡◌, refl, List, [], ◌∷◌, Option, none, some, arith}
use gitility.GitConfig.{Parser, parsed, new_parser, line_up}
use gitility.GitConfig.Quotes.{quote_byte, quote_rest, parse_value-quote_rest}
use gitility.GitConfig.Termination.{parse-Returns}
use gitility.GitConfig.Methods.{parse_value, parse, finished, parse_error, Verdict}

-- `[a "B"]`, then `c = d e ;x`.
abbrev sample : List ℕ
sample =
    b'[' ∷ b'a' ∷ b' ' ∷ b'"' ∷ b'B' ∷ b'"' ∷ b']' ∷ 10 ∷ b'C' ∷ b' ' ∷ b'=' ∷ b' ' ∷ b'd' ∷ b' '
    ∷ b'e' ∷ b' ' ∷ b';' ∷ b'x' ∷ 10 ∷ []

reads :
    parse sample
    ≡ some (finished, (b'a' ∷ b'.' ∷ b'B' ∷ b'.' ∷ b'c' ∷ [], some (b'd' ∷ b' ' ∷ b'e' ∷ [])) ∷ [])
unfolding parse gitility.Base.loop gitility.GitConfig.next_char gitility.GitConfig.is_space
    gitility.GitConfig.is_key_char gitility.GitConfig.Methods.value_turn gitility.GitConfig.c_string
    gitility.GitConfig.ascii_lower
reads = refl

refuses : parse (10 ∷ b'[' ∷ b'a' ∷ []) ≡ some (parse_error 3, [])
unfolding parse gitility.Base.loop gitility.GitConfig.next_char gitility.GitConfig.is_space
    gitility.GitConfig.is_key_char
refuses = refl

parse-Returns_example : (r : Verdict × List (List ℕ × Option (List ℕ))) × (parse sample ≡ some r)
parse-Returns_example = parse-Returns sample

-- A value with a quote, a backslash, a line feed and a blank.
abbrev odd : List ℕ
odd = b'"' ∷ b'\\' ∷ b'\n' ∷ b' ' ∷ []

abbrev quoted : Parser
quoted =
    new_parser
      (b'"' ∷ b'\\' ∷ b'"' ∷ b'\\' ∷ b'\\' ∷ b'\\' ∷ b'n' ∷ b' ' ∷ b'"' ∷ b'\n' ∷ b'x' ∷ [])

quotes : quoted.rest ≡ b'"' ∷ quote_rest odd (b'x' ∷ [])
unfolding quote_rest quote_byte
quotes = refl

parse_value-quote_rest_example :
    parse_value quoted ≡ some (parsed, line_up (record quoted { rest = b'x' ∷ []; value = odd }))
parse_value-quote_rest_example =
    parse_value-quote_rest odd quoted (b'x' ∷ [])
      (omega arith, (omega arith, (omega arith, (omega arith, tt)))) quotes
