-- ===== src/Decode/Identities.antt =====
-- Which identities crates/gitility-core/src/decode.rs reads as they were written.
use gitility.Base.{
  ℕ, zero, suc, ◌+◌, ◌-◌, ◌*◌, ◌/◌, ◌%◌, ◌^◌, ◌<◌, ◌≤◌, ◌≡◌, refl, ap, ◌∙◌, Bool, true, false, not,
  Bool-cases, inl, inr, ltb, ◌==◌, List, [], ◌∷◌, ◌++◌, Option, none, some, length, take, drop, All,
  All-append, take-append, position, rposition, strip_prefix, any, if-cases, arith,
}
use gitility.Error.{ok}
use gitility.Odb.Verify.{decimal, digits_before}
use gitility.Decode.{
  ℤ, pos, negsuc, Identity, is_whitespace, digits_value, number_of, parse_i64, name_end,
  decode_time, decode_identity,
}

abbrev pub IsDigit : ℕ → Type 0
IsDigit c = (48 ≤ c) × (c ≤ 57)

digits_before-IsDigit :
    (fuel n : ℕ) (digits : List ℕ) → All IsDigit digits → All IsDigit (digits_before fuel n digits)
unfolding digits_before
digits_before-IsDigit zero n digits h = h
digits_before-IsDigit (suc fuel) n digits h =
    if-cases (All IsDigit) (ltb n 10) (λ e. ((omega arith, ground (arith, e)), h))
      (λ _.
        digits_before-IsDigit fuel (n / 10) ((b'0' + n % 10) ∷ digits)
          ((omega arith, omega arith), h))

pub decimal-IsDigit : (n : ℕ) → All IsDigit (decimal n)
unfolding decimal
decimal-IsDigit n = digits_before-IsDigit (suc n) n [] tt

-- The digits in front of some others stand for the number that was read before those.
digits_value-digits_before :
    (fuel n : ℕ) (digits : List ℕ)
    → n < fuel
    → digits_value (digits_before fuel n digits) 0 ≡ digits_value digits n
unfolding digits_value digits_before
digits_value-digits_before zero n digits h = absurd (omega (arith, h))
digits_value-digits_before (suc fuel) n digits h = elim (Bool-cases (ltb n 10)) [
  | inl e ↦ ground arith
  | inr e ↦
      (let shorter : n / 10 < fuel = ground (arith, h, e) in
        let again = digits_value-digits_before fuel (n / 10) ((b'0' + n % 10) ∷ digits) shorter in
        let whole : 10 * (n / 10) + (48 + n % 10 - 48) ≡ n = omega arith in
        ground (arith, again, whole))
]

pub digits_value-decimal : (n : ℕ) → digits_value (decimal n) 0 ≡ some n
unfolding decimal digits_value
digits_value-decimal n = digits_value-digits_before (suc n) n [] (omega arith)

-- Where a byte is found behind others that are not looked for.
position-append :
    (test : ℕ → Bool) (xs : List ℕ) (y : ℕ) (ys : List ℕ)
    → All (λ x. test x ≡ false) xs
    → test y ≡ true
    → position test (xs ++ (y ∷ ys)) ≡ some (length xs)
unfolding position
position-append test [] y ys h e = rw e
position-append test (x ∷ xs) y ys h e = rw (h.0, position-append test xs y ys h.1 e)

rposition_dropped :
    (test : ℕ → Bool) (xs : List ℕ) (y : ℕ)
    → test y ≡ false
    → rposition test (xs ++ (y ∷ [])) ≡ rposition test xs
unfolding rposition
rposition_dropped test [] y e = rw e
rposition_dropped test (x ∷ xs) y e = rw (rposition_dropped test xs y e)

digits_before-grows :
    (fuel n : ℕ) (digits : List ℕ) → length digits < length (digits_before (suc fuel) n digits)
unfolding digits_before
digits_before-grows zero n digits = elim (Bool-cases (ltb n 10)) [
  | inl e ↦ rw e (omega arith)
  | inr e ↦ rw e (omega arith)
]
digits_before-grows (suc fuel) n digits = elim (Bool-cases (ltb n 10)) [
  | inl e ↦ rw e (omega arith)
  | inr e ↦ rw e (omega (arith, digits_before-grows fuel (n / 10) ((b'0' + n % 10) ∷ digits)))
]

pub length-decimal : (n : ℕ) → 0 < length (decimal n)
unfolding decimal
length-decimal n = digits_before-grows n n []

-- A time in decimal digits, behind a sign if it is negative.
abbrev pub time_text : ℤ → List ℕ
time_text (pos n) = decimal n
time_text (negsuc n) = b'-' ∷ decimal (suc n)

abbrev pub IsTime : ℤ → Type 0
IsTime (pos n) = n < 2 ^ 63
IsTime (negsuc n) = n < 2 ^ 63

number_of-digits :
    (ds : List ℕ) (n : ℕ) → 0 < length ds → digits_value ds 0 ≡ some n → number_of ds ≡ some n
number_of-digits [] n h e = absurd (omega (arith, h))
number_of-digits (d ∷ ds) n h e = e

pub parse_unsigned :
    (ds : List ℕ) (n : ℕ)
    → 0 < length ds
    → All IsDigit ds
    → digits_value ds 0 ≡ some n
    → n < 2 ^ 63
    → parse_i64 ds ≡ some (pos n)
unfolding parse_i64
parse_unsigned [] n h all e small = absurd (omega (arith, h))
parse_unsigned (d ∷ ds) n h all e small =
    let plain : (d == b'-') ≡ false = ground (arith, all.0) in
    let unsigned : (d == b'+') ≡ false = ground (arith, all.0) in
    let fits : ltb n (2 ^ 63) ≡ true = ground (arith, small) in rw (plain, unsigned, e, fits)

parse_i64-time_text : (t : ℤ) → IsTime t → parse_i64 (time_text t) ≡ some t
unfolding parse_i64
parse_i64-time_text (pos n) small =
    parse_unsigned (decimal n) n (length-decimal n) (decimal-IsDigit n) (digits_value-decimal n)
      small
parse_i64-time_text (negsuc n) small =
    let fits : ltb n (2 ^ 63) ≡ true = ground (arith, small) in
    rw (
      number_of-digits (decimal (suc n)) (suc n) (length-decimal (suc n))
          (digits_value-decimal (suc n)),
      fits,
    )

no_space : (ds : List ℕ) → All IsDigit ds → All (λ x. (x == b' ') ≡ false) ds
no_space [] h = tt
no_space (d ∷ ds) h = (ground (arith, h.0), no_space ds h.1)

time_text_lem : (t : ℤ) → All (λ x. (x == b' ') ≡ false) (time_text t) × (0 < length (time_text t))
time_text_lem (pos n) = (no_space (decimal n) (decimal-IsDigit n), length-decimal n)
time_text_lem (negsuc n) =
    ((refl, no_space (decimal (suc n)) (decimal-IsDigit (suc n))), omega arith)

drop-behind : (xs : List ℕ) (y : ℕ) (ys : List ℕ) → drop (length xs + 1) (xs ++ (y ∷ ys)) ≡ ys
drop-behind [] y ys = refl
drop-behind (x ∷ xs) y ys =
    let more : length (x ∷ xs) + 1 ≡ suc (length xs + 1) = omega arith in
    ap (λ n. drop n (x ∷ (xs ++ (y ∷ ys)))) more ∙ drop-behind xs y ys

take-front : (xs ys zs : List ℕ) → take (length xs) ((xs ++ ys) ++ zs) ≡ xs
take-front [] ys zs = refl
take-front (x ∷ xs) ys zs = ap (λ t. x ∷ t) (take-front xs ys zs)

any-none : (test : ℕ → Bool) (xs : List ℕ) → All (λ x. test x ≡ false) xs → any test xs ≡ false
unfolding any
any-none test [] h = refl
any-none test (x ∷ xs) h = rw (h.0, any-none test xs h.1)

-- An identity that can be written: no angle bracket where one would end a part, no blank at the end
-- of the name or in the timezone, and a time of 64 bits.
pub record IsPrintable (i : Identity) : Type 0 where
  pub opened : All (λ x. (x == b'<') ≡ false) i.name
  pub trimmed : name_end i.name ≡ length i.name
  pub closed : All (λ x. (x == b'>') ≡ false) i.email
  pub time : IsTime i.time
  pub zone : 0 < length i.tz
  pub spaces : All (λ x. (x == b' ') ≡ false) i.tz
  pub tabs : All (λ x. (x == 9) ≡ false) i.tz

-- `name <email> time zone`, as Git writes it.
abbrev pub print : Identity → List ℕ
print i =
    (i.name ++ (b' ' ∷ []))
    ++ (b'<' ∷ (i.email ++ (b'>' ∷ (b' ' ∷ (time_text i.time ++ (b' ' ∷ i.tz))))))

decode_time-print :
    (i : Identity)
    → IsPrintable i
    → decode_time (b' ' ∷ (time_text i.time ++ (b' ' ∷ i.tz))) ≡ ok (i.time, i.tz)
unfolding decode_time strip_prefix
decode_time-print i p =
    let text = time_text i.time in
    let (plain, some_digits) = time_text_lem i.time in
    let timed : (length text == 0) ≡ false = ground (arith, some_digits) in
    let zoned : (length i.tz == 0) ≡ false = ground (arith, p.zone) in
    rw (
      position-append (λ c. c == b' ') text b' ' i.tz plain refl,
      take-append (length text) text (b' ' ∷ i.tz) refl,
      drop-behind text b' ' i.tz,
      timed,
      zoned,
      any-none (λ c. c == b' ') i.tz p.spaces,
      any-none (λ c. c == 9) i.tz p.tabs,
      parse_i64-time_text i.time p.time,
    )

name_end_dropped : (name : List ℕ) → name_end (name ++ (b' ' ∷ [])) ≡ name_end name
unfolding name_end
name_end_dropped name =
    ap (λ (o : Option ℕ). elim o as (λ _. ℕ) [ none ↦ 0 | some i ↦ suc i ])
      (rposition_dropped (λ c. not (is_whitespace c)) name b' ' refl)

-- An identity that can be written, with no angle bracket where one would end a part, no blank at the
-- end of its name or in its timezone, and a time of 64 bits, is read as it was written.
pub decode_identity-print : (i : Identity) → IsPrintable i → decode_identity (print i) ≡ ok i
unfolding decode_identity
decode_identity-print i p =
    let behind = b' ' ∷ (time_text i.time ++ (b' ' ∷ i.tz)) in
    let front = i.name ++ (b' ' ∷ []) in
    let rest = i.email ++ (b'>' ∷ behind) in
    rw (
      position-append (λ c. c == b'<') front b'<' rest
          (All-append (λ x. (x == b'<') ≡ false) i.name (b' ' ∷ []) p.opened (refl, tt)) refl,
      drop-behind front b'<' rest,
      position-append (λ c. c == b'>') i.email b'>' behind p.closed refl,
      drop-behind i.email b'>' behind,
      decode_time-print i p,
      take-append (length front) front (b'<' ∷ rest) refl,
      name_end_dropped i.name,
      p.trimmed,
      take-front i.name (b' ' ∷ []) (b'<' ∷ rest),
      take-append (length i.email) i.email (b'>' ∷ behind) refl,
    )
