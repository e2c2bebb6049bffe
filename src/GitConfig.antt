-- ===== src/GitConfig.antt =====
-- crates/gitility-core/src/git_config.rs: the parser of `.gitmodules`. The position is the list of the
-- bytes behind it. A character is a byte: an `i16` that is negative stands for the byte that it came
-- from, and that of 0xff, which is -1, is the end of the input.
pub mod Methods
mod Reads
mod Parts
pub mod Quotes
pub mod Termination
mod Tests
use gitility.Base.{
  ℕ, suc, ◌+◌, ◌-◌, ◌^◌, ◌≤◌, Bool, true, false, not, ◌&&◌, ◌||◌, List, [], ◌∷◌, ◌++◌, Option, none,
  some, ltb, leb, ◌==◌, if◌then◌else◌, length, take, min, position, Flow, more, done, loop,
}

pub record Parser : Type 0 where
  pub rest : List ℕ
  pub line : ℕ
  pub eof : Bool
  pub name : List ℕ
  pub value : List ℕ
  pub base_len : ℕ
  pub visits : List (List ℕ × Option (List ℕ))

-- `Parser::new`.
abbrev pub new_parser : List ℕ → Parser
new_parser input = record {
  rest = input;
  line = 1;
  eof = false;
  name = [];
  value = [];
  base_len = 0;
  visits = [];
}

-- The result of a method that fails without a reason, beside the parser.
pub data Parsed : Type 0 where
  parsed failed : Parsed

abbrev pub u32_max : ℕ
u32_max = 2 ^ 32 - 1

abbrev pub line_up : Parser → Parser
line_up p = record p { line = min (p.line + 1) u32_max }

abbrev pub line_down : Parser → Parser
line_down p = record p { line = p.line - 1 }

-- `self.name.push(c as u8)`.
abbrev pub push_name : ℕ → Parser → Parser
push_name c p = record p { name = p.name ++ (c ∷ []) }

abbrev pub push_value : ℕ → Parser → Parser
push_value c p = record p { value = p.value ++ (c ∷ []) }

-- `raw_char`: `none` is -1.
unfoldable pub raw_char : List ℕ → Option ℕ × List ℕ
raw_char [] = (none, [])
raw_char (b ∷ rest) = if b == 255 then (none, rest) else (some b, rest)

-- Behind a carriage return: a line feed is one line end with it, another byte is put back.
unfoldable pub fold_return : List ℕ → Option ℕ × List ℕ → ℕ × List ℕ
fold_return rest (none, behind) = (b'\r', behind)
fold_return rest (some c, behind) = if c == b'\n' then (b'\n', behind) else (b'\r', rest)

-- The counting of `next_char`.
unfoldable pub at_char : Parser → ℕ × List ℕ → ℕ × Parser
at_char p (c, rest) =
    if c == b'\n' then (c, line_up (record p { rest = rest })) else (c, record p { rest = rest })

unfoldable pub next_char : Parser → ℕ × Parser
unfolding raw_char fold_return at_char
next_char p =
    let (raw, rest) = raw_char p.rest in
    elim raw [
      | none ↦ (b'\n', line_up (record p { rest = rest; eof = true }))
      | some c ↦
          if c == b'\r' then at_char p (fold_return rest (raw_char rest)) else at_char p (c, rest)
    ]

abbrev pub in_range : ℕ → ℕ → ℕ → Bool
in_range low high c = leb low c && leb c high

unfoldable pub is_alpha : ℕ → Bool
is_alpha c = in_range b'a' b'z' c || in_range b'A' b'Z' c

unfoldable pub is_key_char : ℕ → Bool
unfolding is_alpha
is_key_char c = is_alpha c || in_range b'0' b'9' c || c == b'-'

unfoldable pub is_space : ℕ → Bool
is_space c = c == 9 || c == 10 || c == 13 || c == 32

unfoldable pub ascii_lower : ℕ → ℕ
ascii_lower byte = if in_range b'A' b'Z' byte then byte + 32 else byte

-- `c_string_len`, with the cut that its callers make.
unfoldable pub c_string : List ℕ → List ℕ
unfolding position
c_string bytes = elim (position (λ b. b == 0) bytes) [ none ↦ bytes | some n ↦ take n bytes ]
