-- ===== src/Error/Code.antt =====
-- The codes of crates/gitility-core/src/error.rs: `ErrorCode`, its stable list and its names.
use gitility.Base.{String, List, [], ◌∷◌}

pub data ErrorCode : Type 0 where
  invalid_argument : ErrorCode
  invalid_oid : ErrorCode
  invalid_path : ErrorCode
  invalid_cursor : ErrorCode
  unsupported_hash : ErrorCode
  unsupported_operation : ErrorCode
  unsupported_regex : ErrorCode
  not_a_commit : ErrorCode
  not_a_tree : ErrorCode
  not_a_blob : ErrorCode
  ref_not_found : ErrorCode
  ambiguous_prefix : ErrorCode
  not_found : ErrorCode
  missing_object : ErrorCode
  shallow_boundary : ErrorCode
  malformed_object : ErrorCode
  malformed_bundle : ErrorCode
  malformed_ref : ErrorCode
  hash_mismatch : ErrorCode
  pack_checksum_mismatch : ErrorCode
  index_checksum_mismatch : ErrorCode
  object_too_large : ErrorCode
  budget_exceeded : ErrorCode
  result_too_large : ErrorCode
  timeout : ErrorCode
  await_timeout : ErrorCode
  cancelled : ErrorCode
  busy : ErrorCode
  conflict : ErrorCode
  authentication_failed : ErrorCode
  network_error : ErrorCode
  cleanup_failed : ErrorCode
  credentials_unavailable : ErrorCode
  provider_down : ErrorCode
  provider_timeout : ErrorCode
  provider_protocol_error : ErrorCode
  backend_error : ErrorCode
  runtime_mismatch : ErrorCode
  internal_error : ErrorCode

-- `ErrorCode::all`, in the order of the public Elixir list.
unfoldable pub all : List ErrorCode
all =
    invalid_argument ∷ invalid_oid ∷ invalid_path ∷ invalid_cursor ∷ unsupported_hash
    ∷ unsupported_operation ∷ unsupported_regex ∷ not_a_commit ∷ not_a_tree ∷ not_a_blob
    ∷ ref_not_found ∷ ambiguous_prefix ∷ not_found ∷ missing_object ∷ shallow_boundary
    ∷ malformed_object ∷ malformed_bundle ∷ malformed_ref ∷ hash_mismatch ∷ pack_checksum_mismatch
    ∷ index_checksum_mismatch ∷ object_too_large ∷ budget_exceeded ∷ result_too_large ∷ timeout
    ∷ await_timeout ∷ cancelled ∷ busy ∷ conflict ∷ authentication_failed ∷ network_error
    ∷ cleanup_failed ∷ credentials_unavailable ∷ provider_down ∷ provider_timeout
    ∷ provider_protocol_error ∷ backend_error ∷ runtime_mismatch ∷ internal_error ∷ []

-- `ErrorCode::as_str`.
unfoldable pub as_str : ErrorCode → String
as_str invalid_argument = "invalid_argument"
as_str invalid_oid = "invalid_oid"
as_str invalid_path = "invalid_path"
as_str invalid_cursor = "invalid_cursor"
as_str unsupported_hash = "unsupported_hash"
as_str unsupported_operation = "unsupported_operation"
as_str unsupported_regex = "unsupported_regex"
as_str not_a_commit = "not_a_commit"
as_str not_a_tree = "not_a_tree"
as_str not_a_blob = "not_a_blob"
as_str ref_not_found = "ref_not_found"
as_str ambiguous_prefix = "ambiguous_prefix"
as_str not_found = "not_found"
as_str missing_object = "missing_object"
as_str shallow_boundary = "shallow_boundary"
as_str malformed_object = "malformed_object"
as_str malformed_bundle = "malformed_bundle"
as_str malformed_ref = "malformed_ref"
as_str hash_mismatch = "hash_mismatch"
as_str pack_checksum_mismatch = "pack_checksum_mismatch"
as_str index_checksum_mismatch = "index_checksum_mismatch"
as_str object_too_large = "object_too_large"
as_str budget_exceeded = "budget_exceeded"
as_str result_too_large = "result_too_large"
as_str timeout = "timeout"
as_str await_timeout = "await_timeout"
as_str cancelled = "cancelled"
as_str busy = "busy"
as_str conflict = "conflict"
as_str authentication_failed = "authentication_failed"
as_str network_error = "network_error"
as_str cleanup_failed = "cleanup_failed"
as_str credentials_unavailable = "credentials_unavailable"
as_str provider_down = "provider_down"
as_str provider_timeout = "provider_timeout"
as_str provider_protocol_error = "provider_protocol_error"
as_str backend_error = "backend_error"
as_str runtime_mismatch = "runtime_mismatch"
as_str internal_error = "internal_error"
