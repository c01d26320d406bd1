-- ===== src/Wire/ControlMessage.antt =====
-- include/obicall/wire.h and src/core/wire.c: the control messages. Each has a module with its struct
-- and its codec; here they are one type, as `OBICALL_WIRE_STRUCT_CODEC_DECL` declares them.
pub mod RoundTrip
mod Tests
use obicall.Common.{ℕ, ◌+◌, ◌^◌, ◌<◌, ◌≡◌, ap, Bool, List, ◌∷◌, ◌++◌, leb, if◌then◌else◌, length}
use obicall.Status.{Result, ok, err, wire_malformed, buffer_too_small, ◌>>=◌}
use obicall.Wire.Control.AuthHello.{
  AuthHello, IsAuthHello, auth_hello_writers, encode_auth_hello, auth_hello_reader,
  decode_auth_hello, auth_hello_layout, auth_hello_writers-Writes, auth_hello_reader-Reads,
}
use obicall.Wire.Control.Heartbeat.{
  Heartbeat, IsHeartbeat, heartbeat_writers, encode_heartbeat, heartbeat_reader, decode_heartbeat,
  heartbeat_layout, heartbeat_writers-Writes, heartbeat_reader-Reads,
}
use obicall.Wire.Control.EpochGrant.{
  EpochGrant, IsEpochGrant, epoch_grant_writers, encode_epoch_grant, epoch_grant_reader,
  decode_epoch_grant, epoch_grant_layout, epoch_grant_writers-Writes, epoch_grant_reader-Reads,
}
use obicall.Wire.Control.EpochRevoke.{
  EpochRevoke, IsEpochRevoke, epoch_revoke_writers, encode_epoch_revoke, epoch_revoke_reader,
  decode_epoch_revoke, epoch_revoke_layout, epoch_revoke_writers-Writes, epoch_revoke_reader-Reads,
}
use obicall.Wire.Control.ReadinessReport.{
  ReadinessReport, IsReadinessReport, readiness_report_writers, encode_readiness_report,
  readiness_report_reader, decode_readiness_report, readiness_report_layout,
  readiness_report_writers-Writes, readiness_report_reader-Reads,
}
use obicall.Wire.Control.ReplayRequest.{
  ReplayRequest, IsReplayRequest, replay_request_writers, encode_replay_request,
  replay_request_reader, decode_replay_request, replay_request_layout,
  replay_request_writers-Writes, replay_request_reader-Reads,
}
use obicall.Wire.Control.AdmissionDecision.{
  AdmissionDecision, IsAdmissionDecision, admission_decision_writers, encode_admission_decision,
  admission_decision_reader, decode_admission_decision, admission_decision_layout,
  admission_decision_writers-Writes, admission_decision_reader-Reads,
}
use obicall.Wire.Control.ResultAck.{
  ResultAck, IsResultAck, result_ack_writers, encode_result_ack, result_ack_reader,
  decode_result_ack, result_ack_layout, result_ack_writers-Writes, result_ack_reader-Reads,
}
use obicall.Wire.Control.StatusReply.{
  StatusReply, IsStatusReply, status_reply_writers, encode_status_reply, status_reply_reader,
  decode_status_reply, status_reply_layout, status_reply_writers-Writes, status_reply_reader-Reads,
}

pub data ControlMessage : Type 0 where
  auth_hello : AuthHello → ControlMessage
  heartbeat : Heartbeat → ControlMessage
  epoch_grant : EpochGrant → ControlMessage
  epoch_revoke : EpochRevoke → ControlMessage
  readiness_report : ReadinessReport → ControlMessage
  replay_request : ReplayRequest → ControlMessage
  admission_decision : AdmissionDecision → ControlMessage
  result_ack : ResultAck → ControlMessage
  status_reply : StatusReply → ControlMessage

-- One constructor for each codec that the header declares.
pub data ControlKind : Type 0 where
  auth_hello_kind heartbeat_kind epoch_grant_kind epoch_revoke_kind readiness_report_kind
        replay_request_kind admission_decision_kind result_ack_kind status_reply_kind :
      ControlKind

pub kind_of : ControlMessage → ControlKind
kind_of (auth_hello m) = auth_hello_kind
kind_of (heartbeat m) = heartbeat_kind
kind_of (epoch_grant m) = epoch_grant_kind
kind_of (epoch_revoke m) = epoch_revoke_kind
kind_of (readiness_report m) = readiness_report_kind
kind_of (replay_request m) = replay_request_kind
kind_of (admission_decision m) = admission_decision_kind
kind_of (result_ack m) = result_ack_kind
kind_of (status_reply m) = status_reply_kind

pub encode_control : ControlMessage → ℕ → Result (List ℕ)
encode_control (auth_hello m) out_cap = encode_auth_hello m out_cap
encode_control (heartbeat m) out_cap = encode_heartbeat m out_cap
encode_control (epoch_grant m) out_cap = encode_epoch_grant m out_cap
encode_control (epoch_revoke m) out_cap = encode_epoch_revoke m out_cap
encode_control (readiness_report m) out_cap = encode_readiness_report m out_cap
encode_control (replay_request m) out_cap = encode_replay_request m out_cap
encode_control (admission_decision m) out_cap = encode_admission_decision m out_cap
encode_control (result_ack m) out_cap = encode_result_ack m out_cap
encode_control (status_reply m) out_cap = encode_status_reply m out_cap

pub decode_control : ControlKind → List ℕ → Result ControlMessage
decode_control auth_hello_kind input = do m ← decode_auth_hello input; ok (auth_hello m)
decode_control heartbeat_kind input = do m ← decode_heartbeat input; ok (heartbeat m)
decode_control epoch_grant_kind input = do m ← decode_epoch_grant input; ok (epoch_grant m)
decode_control epoch_revoke_kind input = do m ← decode_epoch_revoke input; ok (epoch_revoke m)
decode_control readiness_report_kind input = do
  m ← decode_readiness_report input
  ok (readiness_report m)
decode_control replay_request_kind input = do m ← decode_replay_request input; ok (replay_request m)
decode_control admission_decision_kind input = do
  m ← decode_admission_decision input
  ok (admission_decision m)
decode_control result_ack_kind input = do m ← decode_result_ack input; ok (result_ack m)
decode_control status_reply_kind input = do m ← decode_status_reply input; ok (status_reply m)

-- The wire formats.
pub control_layout : ControlMessage → List ℕ
control_layout (auth_hello m) = auth_hello_layout m
control_layout (heartbeat m) = heartbeat_layout m
control_layout (epoch_grant m) = epoch_grant_layout m
control_layout (epoch_revoke m) = epoch_revoke_layout m
control_layout (readiness_report m) = readiness_report_layout m
control_layout (replay_request m) = replay_request_layout m
control_layout (admission_decision m) = admission_decision_layout m
control_layout (result_ack m) = result_ack_layout m
control_layout (status_reply m) = status_reply_layout m

-- Every field holds a value of its C type.
abbrev pub IsControl : ControlMessage → Type 0
IsControl (auth_hello m) = IsAuthHello m
IsControl (heartbeat m) = IsHeartbeat m
IsControl (epoch_grant m) = IsEpochGrant m
IsControl (epoch_revoke m) = IsEpochRevoke m
IsControl (readiness_report m) = IsReadinessReport m
IsControl (replay_request m) = IsReplayRequest m
IsControl (admission_decision m) = IsAdmissionDecision m
IsControl (result_ack m) = IsResultAck m
IsControl (status_reply m) = IsStatusReply m
