-- ===== src/Refs/Tests.antt =====
-- Small names, and one that needs the compact form.
use gitility.Base.{
  ℕ, ◌≡◌, refl, ap, ◌∙◌, Bool, true, false, ◌&&◌, not, ltb, ◌==◌, List, [], ◌∷◌, ◌++◌, Option, none,
  some, replicate, All, arith, bytes_eq, if◌then◌else◌,
}
use gitility.Oid.{Oid, sha1, sha256}
use gitility.Error.{ok, ◌>>=◌}
use gitility.Refs.{
  is_forbidden_ref_byte, encode_compact_ref_position, decode_compact_ref_position,
  ref_name_alphabet_byte,
}
use gitility.Budget.{Budget, new_budget, default_limits, check}
use gitility.Odb.{World, Io, Clock, pure, at_now}
use gitility.Odb.Safe.{Outcome, pure-Safe}
use gitility.Refs.Names.{
  NameRules, RefTarget, direct, symbolic, validate_full_ref_name, resolve_with, refs_prefix,
  head_name,
}
use gitility.Refs.Names.Leads.{Leads, Ends, found, over}
use gitility.Refs.Names.Resolves.{resolve_with-Ends}
use gitility.Refs.Names.Finishes.{Always, Gives, resolve_with-Finishes}
use gitility.Refs.Pages.Fits.{IsAllowed}
use gitility.Refs.Pages.Resumes.{Resumes, encode_ref_cursor-Resumes}

-- `refs/` and 40 bytes: one block and a tail.
abbrev short_name : List ℕ
short_name = refs_prefix ++ replicate 40 b'a'

name_round :
    (encode_compact_ref_position short_name >>= decode_compact_ref_position) ≡ ok short_name
unfolding encode_compact_ref_position decode_compact_ref_position
name_round = refl

last_rank : ref_name_alphabet_byte 214 ≡ some 255
unfolding ref_name_alphabet_byte
last_rank = refl

abbrev allowed : List ℕ → Bool
allowed [] = true
allowed (c ∷ name) =
    (ltb c 256 && (ltb 32 c && (not (c == 127) && not (is_forbidden_ref_byte c)))) && allowed name

abbrev rules : NameRules
rules = record { is_full_name = allowed; debug = λ name. "" }

rules_lem : (name : List ℕ) → allowed name ≡ true → All IsAllowed name
rules_lem [] h = tt
rules_lem (c ∷ name) h =
    ((ground arith, ground arith, ground arith, ground arith), rules_lem name (ground arith))

-- `refs/` and 4091 bytes.
abbrev long_name : List ℕ
long_name = refs_prefix ++ replicate 4091 b'a'

valid_example : validate_full_ref_name rules long_name ≡ ok tt
unfolding validate_full_ref_name
valid_example = refl

encode_ref_cursor-Resumes_example : Resumes rules sha256 7 long_name
encode_ref_cursor-Resumes_example =
    encode_ref_cursor-Resumes rules rules_lem sha256 7 long_name (omega arith) valid_example

-- `HEAD` names `refs/a`, which is direct.
abbrev clock : Clock ℕ
clock = record { read = λ s. (s, s) }

abbrev master : List ℕ
master = refs_prefix ++ (b'a' ∷ [])

abbrev zero_oid : Oid
zero_oid = record { kind = sha1; bytes = replicate 32 0 }

abbrev target_of : List ℕ → Option RefTarget
target_of name =
    if bytes_eq name head_name
    then some (symbolic master)
    else if bytes_eq name master
    then some (direct zero_oid none)
    else none

abbrev resolve_one : List ℕ → Io ℕ (Option RefTarget)
resolve_one name = pure (target_of name)

abbrev fresh : Budget
fresh = new_budget default_limits none false

abbrev world : World ℕ
world = record { outside = 5; budget = fresh }

abbrev Any : ℕ → Type 0
Any s = Unit

valid_head : validate_full_ref_name rules head_name ≡ ok tt
unfolding validate_full_ref_name
valid_head = refl

valid_master : validate_full_ref_name rules master ≡ ok tt
unfolding validate_full_ref_name
valid_master = refl

resolve_with-Ends_example :
    Outcome Any
      (λ end.
        (validate_full_ref_name rules head_name ≡ ok tt) × Ends rules target_of 16 head_name end)
      (resolve_with rules clock resolve_one head_name world)
resolve_with-Ends_example =
    resolve_with-Ends Any clock (λ s i. i) rules resolve_one target_of
      (λ name. pure-Safe Any (λ answer. answer ≡ target_of name) (target_of name) refl) head_name
      world tt

abbrev IsFresh : World ℕ → Type 0
IsFresh w = w.budget ≡ fresh

check-fresh : (now : ℕ) → check now fresh ≡ (ok tt, fresh)
unfolding check new_budget
check-fresh now = refl

checks : Always IsFresh tt (at_now clock check)
checks w k = record {
  world = record w { budget = fresh };
  returns =
      ap (λ b. some ((check w.outside b).0, record w { budget = (check w.outside b).1 })) k
      ∙ ap (λ r. some (r.0, record w { budget = r.1 })) (check-fresh w.outside);
  keeps = refl;
}

answers : (name : List ℕ) → Always IsFresh (target_of name) (resolve_one name)
answers name w k = record { world = w; returns = refl; keeps = k }

chain : Leads rules target_of 2 head_name (some (direct zero_oid none))
chain = over 1 head_name master _ refl valid_master (found master zero_oid none refl)

resolve_with-Finishes_example :
    Gives IsFresh
      (some (direct zero_oid none))
      (resolve_with rules clock resolve_one head_name world)
resolve_with-Finishes_example =
    resolve_with-Finishes rules target_of IsFresh clock resolve_one checks answers 2 head_name
      (some (direct zero_oid none)) world (omega arith) valid_head chain refl
