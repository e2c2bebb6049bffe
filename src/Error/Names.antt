-- ===== src/Error/Names.antt =====
-- The stable names of the codes of crates/gitility-core/src/error.rs, and the search for one.
use text.Mathlib.Text.{◌==◌ as str_eq}
use gitility.Base.{◌≡◌, refl, if◌then◌else◌, String, List, [], ◌∷◌, Option, none, some}
use gitility.Error.Code.{ErrorCode, all, as_str}

-- The first code of a list that has the name.
pub find_named : String → List ErrorCode → Option ErrorCode
find_named name [] = none
find_named name (c ∷ cs) = if str_eq (as_str c) name then some c else find_named name cs

-- The name of every code leads back to that code by a search of the stable list: the list is
-- complete, and no two codes share a name.
pub find_named-as_str : (c : ErrorCode) → find_named (as_str c) all ≡ some c
unfolding find_named as_str all
find_named-as_str ErrorCode.invalid_argument = refl
find_named-as_str ErrorCode.invalid_oid = refl
find_named-as_str ErrorCode.invalid_path = refl
find_named-as_str ErrorCode.invalid_cursor = refl
find_named-as_str ErrorCode.unsupported_hash = refl
find_named-as_str ErrorCode.unsupported_operation = refl
find_named-as_str ErrorCode.unsupported_regex = refl
find_named-as_str ErrorCode.not_a_commit = refl
find_named-as_str ErrorCode.not_a_tree = refl
find_named-as_str ErrorCode.not_a_blob = refl
find_named-as_str ErrorCode.ref_not_found = refl
find_named-as_str ErrorCode.ambiguous_prefix = refl
find_named-as_str ErrorCode.not_found = refl
find_named-as_str ErrorCode.missing_object = refl
find_named-as_str ErrorCode.shallow_boundary = refl
find_named-as_str ErrorCode.malformed_object = refl
find_named-as_str ErrorCode.malformed_bundle = refl
find_named-as_str ErrorCode.malformed_ref = refl
find_named-as_str ErrorCode.hash_mismatch = refl
find_named-as_str ErrorCode.pack_checksum_mismatch = refl
find_named-as_str ErrorCode.index_checksum_mismatch = refl
find_named-as_str ErrorCode.object_too_large = refl
find_named-as_str ErrorCode.budget_exceeded = refl
find_named-as_str ErrorCode.result_too_large = refl
find_named-as_str ErrorCode.timeout = refl
find_named-as_str ErrorCode.await_timeout = refl
find_named-as_str ErrorCode.cancelled = refl
find_named-as_str ErrorCode.busy = refl
find_named-as_str ErrorCode.conflict = refl
find_named-as_str ErrorCode.authentication_failed = refl
find_named-as_str ErrorCode.network_error = refl
find_named-as_str ErrorCode.cleanup_failed = refl
find_named-as_str ErrorCode.credentials_unavailable = refl
find_named-as_str ErrorCode.provider_down = refl
find_named-as_str ErrorCode.provider_timeout = refl
find_named-as_str ErrorCode.provider_protocol_error = refl
find_named-as_str ErrorCode.backend_error = refl
find_named-as_str ErrorCode.runtime_mismatch = refl
find_named-as_str ErrorCode.internal_error = refl
