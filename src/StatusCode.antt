-- ===== src/StatusCode.antt =====
-- include/obicall/status.h and src/core/status.c: the numbers and the texts of the status codes.
mod Tests
use obicall.Common.{ℕ, ◌≡◌, refl, ap, sym, ◌∙◌, Option, none, some, ◌==◌, if◌then◌else◌}
use Prim.Native.String.{String}
use obicall.Status.{
  Status, invalid_argument, null_pointer, out_of_range, buffer_too_small, not_found, already_exists,
  unsupported, abi_version_mismatch, abi_struct_size_mismatch, symbol_not_found,
  architecture_mismatch, artifact_integrity, dependency_cycle, dependency_missing,
  conformance_failed, load_failed, validation_non_finite, validation_dimension,
  validation_covariance, validation_sequence, validation_timing, admission_duplicate,
  admission_late, admission_overflow, wire_malformed, wire_too_large, wire_version_unsupported,
  wire_checksum, io, timeout, auth, connection_closed, gate_not_owner, gate_stale_epoch,
  gate_duplicate_window, gate_expired, gate_incompatible, gate_not_ready, gate_persistence,
  process_spawn, process_not_running, already_running, dgt_no_eligible_action, dgt_invalid_score,
  internal,
}

unfoldable pub status_code : Status → ℕ
status_code invalid_argument = 1
status_code null_pointer = 2
status_code out_of_range = 3
status_code buffer_too_small = 4
status_code not_found = 5
status_code already_exists = 6
status_code unsupported = 7
status_code abi_version_mismatch = 20
status_code abi_struct_size_mismatch = 21
status_code symbol_not_found = 22
status_code architecture_mismatch = 23
status_code artifact_integrity = 24
status_code dependency_cycle = 25
status_code dependency_missing = 26
status_code conformance_failed = 27
status_code load_failed = 28
status_code validation_non_finite = 40
status_code validation_dimension = 41
status_code validation_covariance = 42
status_code validation_sequence = 43
status_code validation_timing = 44
status_code admission_duplicate = 45
status_code admission_late = 46
status_code admission_overflow = 47
status_code wire_malformed = 60
status_code wire_too_large = 61
status_code wire_version_unsupported = 62
status_code wire_checksum = 63
status_code io = 64
status_code timeout = 65
status_code auth = 66
status_code connection_closed = 67
status_code gate_not_owner = 80
status_code gate_stale_epoch = 81
status_code gate_duplicate_window = 82
status_code gate_expired = 83
status_code gate_incompatible = 84
status_code gate_not_ready = 85
status_code gate_persistence = 86
status_code process_spawn = 100
status_code process_not_running = 101
status_code already_running = 102
status_code dgt_no_eligible_action = 120
status_code dgt_invalid_score = 121
status_code internal = 255

-- `obicall_status_string` on the codes of errors.
unfoldable pub status_string : Status → String
status_string invalid_argument = "invalid argument"
status_string null_pointer = "null pointer"
status_string out_of_range = "value out of range"
status_string buffer_too_small = "buffer too small"
status_string not_found = "not found"
status_string already_exists = "already exists"
status_string unsupported = "unsupported"
status_string abi_version_mismatch = "ABI version mismatch"
status_string abi_struct_size_mismatch = "ABI struct size mismatch"
status_string symbol_not_found = "symbol not found"
status_string architecture_mismatch = "architecture mismatch"
status_string artifact_integrity = "artifact integrity check failed"
status_string dependency_cycle = "dependency cycle"
status_string dependency_missing = "dependency missing"
status_string conformance_failed = "conformance check failed"
status_string load_failed = "load failed"
status_string validation_non_finite = "non-finite value"
status_string validation_dimension = "dimension mismatch"
status_string validation_covariance = "invalid covariance"
status_string validation_sequence = "invalid sequence"
status_string validation_timing = "invalid timing"
status_string admission_duplicate = "duplicate observation"
status_string admission_late = "late observation"
status_string admission_overflow = "admission queue overflow"
status_string wire_malformed = "malformed wire frame"
status_string wire_too_large = "wire frame too large"
status_string wire_version_unsupported = "unsupported wire version"
status_string wire_checksum = "wire checksum mismatch"
status_string io = "I/O error"
status_string timeout = "timeout"
status_string auth = "authentication failed"
status_string connection_closed = "connection closed"
status_string gate_not_owner = "not the current epoch owner"
status_string gate_stale_epoch = "stale epoch"
status_string gate_duplicate_window = "duplicate window"
status_string gate_expired = "result expired"
status_string gate_incompatible = "incompatible with gate state"
status_string gate_not_ready = "not ready for promotion"
status_string gate_persistence = "gate persistence failure"
status_string process_spawn = "process spawn failed"
status_string process_not_running = "process not running"
status_string already_running = "already running"
status_string dgt_no_eligible_action = "no eligible DGT action"
status_string dgt_invalid_score = "invalid DGT score"
status_string internal = "internal error"

-- The error with a number, found by trying all.
abbrev status_of : ℕ → Option Status
status_of c =
    if c == 1
    then some invalid_argument
    else if c == 2
    then some null_pointer
    else if c == 3
    then some out_of_range
    else if c == 4
    then some buffer_too_small
    else if c == 5
    then some not_found
    else if c == 6
    then some already_exists
    else if c == 7
    then some unsupported
    else if c == 20
    then some abi_version_mismatch
    else if c == 21
    then some abi_struct_size_mismatch
    else if c == 22
    then some symbol_not_found
    else if c == 23
    then some architecture_mismatch
    else if c == 24
    then some artifact_integrity
    else if c == 25
    then some dependency_cycle
    else if c == 26
    then some dependency_missing
    else if c == 27
    then some conformance_failed
    else if c == 28
    then some load_failed
    else if c == 40
    then some validation_non_finite
    else if c == 41
    then some validation_dimension
    else if c == 42
    then some validation_covariance
    else if c == 43
    then some validation_sequence
    else if c == 44
    then some validation_timing
    else if c == 45
    then some admission_duplicate
    else if c == 46
    then some admission_late
    else if c == 47
    then some admission_overflow
    else if c == 60
    then some wire_malformed
    else if c == 61
    then some wire_too_large
    else if c == 62
    then some wire_version_unsupported
    else if c == 63
    then some wire_checksum
    else if c == 64
    then some io
    else if c == 65
    then some timeout
    else if c == 66
    then some auth
    else if c == 67
    then some connection_closed
    else if c == 80
    then some gate_not_owner
    else if c == 81
    then some gate_stale_epoch
    else if c == 82
    then some gate_duplicate_window
    else if c == 83
    then some gate_expired
    else if c == 84
    then some gate_incompatible
    else if c == 85
    then some gate_not_ready
    else if c == 86
    then some gate_persistence
    else if c == 100
    then some process_spawn
    else if c == 101
    then some process_not_running
    else if c == 102
    then some already_running
    else if c == 120
    then some dgt_no_eligible_action
    else if c == 121
    then some dgt_invalid_score
    else if c == 255
    then some internal
    else none

status_of-status_code : (s : Status) → status_of (status_code s) ≡ some s
unfolding status_code
status_of-status_code invalid_argument = refl
status_of-status_code null_pointer = refl
status_of-status_code out_of_range = refl
status_of-status_code buffer_too_small = refl
status_of-status_code not_found = refl
status_of-status_code already_exists = refl
status_of-status_code unsupported = refl
status_of-status_code abi_version_mismatch = refl
status_of-status_code abi_struct_size_mismatch = refl
status_of-status_code symbol_not_found = refl
status_of-status_code architecture_mismatch = refl
status_of-status_code artifact_integrity = refl
status_of-status_code dependency_cycle = refl
status_of-status_code dependency_missing = refl
status_of-status_code conformance_failed = refl
status_of-status_code load_failed = refl
status_of-status_code validation_non_finite = refl
status_of-status_code validation_dimension = refl
status_of-status_code validation_covariance = refl
status_of-status_code validation_sequence = refl
status_of-status_code validation_timing = refl
status_of-status_code admission_duplicate = refl
status_of-status_code admission_late = refl
status_of-status_code admission_overflow = refl
status_of-status_code wire_malformed = refl
status_of-status_code wire_too_large = refl
status_of-status_code wire_version_unsupported = refl
status_of-status_code wire_checksum = refl
status_of-status_code io = refl
status_of-status_code timeout = refl
status_of-status_code auth = refl
status_of-status_code connection_closed = refl
status_of-status_code gate_not_owner = refl
status_of-status_code gate_stale_epoch = refl
status_of-status_code gate_duplicate_window = refl
status_of-status_code gate_expired = refl
status_of-status_code gate_incompatible = refl
status_of-status_code gate_not_ready = refl
status_of-status_code gate_persistence = refl
status_of-status_code process_spawn = refl
status_of-status_code process_not_running = refl
status_of-status_code already_running = refl
status_of-status_code dgt_no_eligible_action = refl
status_of-status_code dgt_invalid_score = refl
status_of-status_code internal = refl

-- Two errors have the same number only if they are the same.
pub status_code-injective : (s t : Status) → status_code s ≡ status_code t → s ≡ t
status_code-injective s t e = cc (status_of-status_code s, status_of-status_code t, ap status_of e)
