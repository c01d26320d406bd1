-- ===== src/StatusCode/Tests.antt =====
-- A run of the status codes.
use obicall.Common.{◌≡◌, refl}
use obicall.Status.{wire_checksum}
use obicall.StatusCode.{status_string}

status_string_checksum : status_string wire_checksum ≡ "wire checksum mismatch"
unfolding status_string
status_string_checksum = refl
