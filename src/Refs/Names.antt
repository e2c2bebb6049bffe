-- ===== src/Refs/Names.antt =====
-- Full names of references and their resolution over symbolic references, of
-- crates/gitility-core/src/refs.rs.
pub mod Leads
pub mod Resolves
pub mod Finishes
use Prim.Native.String.{slice}
use Prim.Native.String
use gitility.Base.{
  ℕ, zero, suc, ◌+◌, ◌/◌, ◌%◌, Bool, true, false, ◌&&◌, ◌||◌, not, ltb, leb, if◌then◌else◌, String,
  List, [], ◌∷◌, ◌++◌, Option, none, some, length, bytes_eq, starts_with,
}
use gitility.Oid.{Oid}
use gitility.Error.{Error, Result, ok, err, new_text, with_reason, malformed_ref}
use gitility.Budget.{check}
use gitility.Odb.{World, Io, Clock, at_now, pure, fail, lift, ◌>>=◌, ◌>>◌}
use gitility.Refs.{max_ref_name_bytes}

-- What gix gives: the component rules for a full name, and how it displays bytes.
pub record NameRules : Type 0 where
  pub is_full_name : List ℕ → Bool
  pub debug : List ℕ → String

pub data RefTarget : Type 0 where
  direct : Oid → Option Oid → RefTarget
  symbolic : List ℕ → RefTarget

abbrev pub max_symbolic_ref_hops : ℕ
max_symbolic_ref_hops = 16

abbrev pub head_name : List ℕ
head_name = b'H' ∷ b'E' ∷ b'A' ∷ b'D' ∷ []

abbrev pub refs_prefix : List ℕ
refs_prefix = b'r' ∷ b'e' ∷ b'f' ∷ b's' ∷ b'/' ∷ []

-- The decimal digits of a number, with fuel for each.
unfoldable pub digits_text : ℕ → ℕ → String
digits_text zero n = ""
digits_text (suc fuel) n =
    let front = digits_text fuel (n / 10) in
    let last = slice "0123456789" (n % 10) (n % 10 + 1) in
    if ltb n 10 then last else String.◌++◌ front last

unfoldable pub name_in : List ℕ → List (List ℕ) → Bool
name_in name [] = false
name_in name (x ∷ xs) = bytes_eq name x || name_in name xs

module _ (rules : NameRules) where
  abbrev pub display_ref : List ℕ → String
  display_ref name = rules.debug name

  unfoldable pub display_chain : List (List ℕ) → String
  display_chain [] = ""
  display_chain (name ∷ []) = display_ref name
  display_chain (name ∷ next ∷ chain) =
      String.◌++◌ (display_ref name) (String.◌++◌ " -> " (display_chain (next ∷ chain)))

  abbrev pub too_long : List ℕ → Error
  too_long name =
      with_reason
        (String.◌++◌ "ref " (
          String.◌++◌ (display_ref name) (
            String.◌++◌ " has length "
              (String.◌++◌ (digits_text (suc (length name)) (length name)) " bytes (limit 4096)"))))
        (new_text malformed_ref "reference name exceeds the 4096-byte limit")

  abbrev pub not_full : List ℕ → Error
  not_full name =
      with_reason (String.◌++◌ "ref " (display_ref name))
        (new_text malformed_ref "reference name is not a valid full ref name")

  unfoldable pub validate_full_ref_name : List ℕ → Result (Unit {0})
  unfolding digits_text starts_with
  validate_full_ref_name name =
      if ltb max_ref_name_bytes (length name)
      then err (too_long name)
      else if not (bytes_eq name head_name || starts_with name refs_prefix)
          || not (rules.is_full_name name)
      then err (not_full name)
      else ok tt

  unfoldable pub symbolic_cycle : List (List ℕ) → Error
  unfolding display_chain
  symbolic_cycle chain =
      with_reason (String.◌++◌ "symbolic cycle " (display_chain chain))
        (new_text malformed_ref "symbolic reference cycle detected")

  unfoldable pub too_many_hops : List (List ℕ) → Error
  unfolding display_chain
  too_many_hops chain =
      with_reason (String.◌++◌ "symbolic chain " (display_chain chain))
        (new_text malformed_ref "symbolic reference exceeds the 16-hop limit")

  -- The check of a symbolic target.
  abbrev pub named_target : List ℕ → Result (Unit {0}) → Result (Unit {0})
  named_target next (ok u) = ok u
  named_target next (err e) = err (
      with_reason (String.◌++◌ "symbolic target " (display_ref next))
        (new_text malformed_ref "symbolic reference points to an invalid full ref name"))

  unfoldable pub validate_target : List ℕ → Result (Unit {0})
  unfolding validate_full_ref_name
  validate_target next = named_target next (validate_full_ref_name next)

  module _ {S : Type 0} (clock : Clock S) (resolve_one : List ℕ → Io S (Option RefTarget)) where
    -- The answer for one name: an end, or the next name.
    unfoldable pub follow :
        (List ℕ → Io S (Option RefTarget)) → Option RefTarget → Io S (Option RefTarget)
    unfolding validate_target
    follow again none = pure none
    follow again (some (direct oid peeled)) = pure (some (direct oid peeled))
    follow again (some (symbolic next)) = lift (validate_target next) >> again next

    -- The loop, with the hops that are left.
    unfoldable pub hop : ℕ → List ℕ → List (List ℕ) → List (List ℕ) → Io S (Option RefTarget)
    unfolding check name_in symbolic_cycle too_many_hops follow
    hop zero current seen chain = fail (too_many_hops chain)
    hop (suc hops) current seen chain =
        let again = λ (next : List ℕ). hop hops next (current ∷ seen) (chain ++ (current ∷ [])) in
        at_now clock check
        >> (if name_in current seen
            then fail (symbolic_cycle (chain ++ (current ∷ [])))
            else (resolve_one current >>= follow again))

    unfoldable pub resolve_with : List ℕ → Io S (Option RefTarget)
    unfolding validate_full_ref_name hop
    resolve_with name = lift (validate_full_ref_name name) >> hop max_symbolic_ref_hops name [] []
