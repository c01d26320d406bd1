-- ===== src/Wire/ControlMessage/RoundTrip.antt =====
-- The control codecs, each the inverse of the other.
use obicall.Common.{ℕ, ◌^◌, ◌<◌, ◌≡◌, ap, List, ◌∷◌, ◌++◌, leb, if◌then◌else◌, length}
use obicall.Cursor.Writes.{encode_with-Writes}
use obicall.Cursor.RoundTrip
use obicall.Status.{Result, ok, err, wire_malformed, buffer_too_small, ◌>>=◌}
use obicall.Wire.Control.AuthHello.{
  AuthHello, encode_auth_hello, decode_auth_hello, auth_hello_writers-Writes,
  auth_hello_reader-Reads,
}
use obicall.Wire.Control.Heartbeat.{
  Heartbeat, encode_heartbeat, decode_heartbeat, heartbeat_writers-Writes, heartbeat_reader-Reads,
}
use obicall.Wire.Control.EpochGrant.{
  EpochGrant, encode_epoch_grant, decode_epoch_grant, epoch_grant_writers-Writes,
  epoch_grant_reader-Reads,
}
use obicall.Wire.Control.EpochRevoke.{
  EpochRevoke, encode_epoch_revoke, decode_epoch_revoke, epoch_revoke_writers-Writes,
  epoch_revoke_reader-Reads,
}
use obicall.Wire.Control.ReadinessReport.{
  ReadinessReport, encode_readiness_report, decode_readiness_report,
  readiness_report_writers-Writes, readiness_report_reader-Reads,
}
use obicall.Wire.Control.ReplayRequest.{
  ReplayRequest, encode_replay_request, decode_replay_request, replay_request_writers-Writes,
  replay_request_reader-Reads,
}
use obicall.Wire.Control.AdmissionDecision.{
  AdmissionDecision, encode_admission_decision, decode_admission_decision,
  admission_decision_writers-Writes, admission_decision_reader-Reads,
}
use obicall.Wire.Control.ResultAck.{
  ResultAck, encode_result_ack, decode_result_ack, result_ack_writers-Writes,
  result_ack_reader-Reads,
}
use obicall.Wire.Control.StatusReply.{
  StatusReply, encode_status_reply, decode_status_reply, status_reply_writers-Writes,
  status_reply_reader-Reads,
}
use obicall.Wire.ControlMessage.{
  ControlMessage, auth_hello, heartbeat, epoch_grant, epoch_revoke, readiness_report,
  replay_request, admission_decision, result_ack, status_reply, kind_of, encode_control,
  decode_control, control_layout, IsControl,
}

-- Whatever a control message's fields hold, it is encoded as its wire format if that fits the
-- buffer, and otherwise the buffer is reported as too small.
pub encode_control_lem :
    (m : ControlMessage) (out_cap : ℕ)
    → out_cap < 2 ^ 32
    → encode_control m out_cap ≡ (
        if leb (length (control_layout m)) out_cap
        then ok (control_layout m)
        else err buffer_too_small)
unfolding encode_control control_layout encode_auth_hello encode_heartbeat encode_epoch_grant
    encode_epoch_revoke encode_readiness_report encode_replay_request encode_admission_decision
    encode_result_ack encode_status_reply
encode_control_lem (auth_hello m) out_cap word =
    encode_with-Writes _ out_cap _ _ (auth_hello_writers-Writes m) word
encode_control_lem (heartbeat m) out_cap word =
    encode_with-Writes _ out_cap _ _ (heartbeat_writers-Writes m) word
encode_control_lem (epoch_grant m) out_cap word =
    encode_with-Writes _ out_cap _ _ (epoch_grant_writers-Writes m) word
encode_control_lem (epoch_revoke m) out_cap word =
    encode_with-Writes _ out_cap _ _ (epoch_revoke_writers-Writes m) word
encode_control_lem (readiness_report m) out_cap word =
    encode_with-Writes _ out_cap _ _ (readiness_report_writers-Writes m) word
encode_control_lem (replay_request m) out_cap word =
    encode_with-Writes _ out_cap _ _ (replay_request_writers-Writes m) word
encode_control_lem (admission_decision m) out_cap word =
    encode_with-Writes _ out_cap _ _ (admission_decision_writers-Writes m) word
encode_control_lem (result_ack m) out_cap word =
    encode_with-Writes _ out_cap _ _ (result_ack_writers-Writes m) word
encode_control_lem (status_reply m) out_cap word =
    encode_with-Writes _ out_cap _ _ (status_reply_writers-Writes m) word

-- Decoding an encoded control message gives the message back, whatever bytes follow it.
pub decode-encode_control :
    (m : ControlMessage) (out_cap : ℕ)
    → IsControl m
    → out_cap < 2 ^ 32
    → (bs post : List ℕ) → encode_control m out_cap ≡ ok bs
    → length (bs ++ post) < 2 ^ 32
    → decode_control (kind_of m) (bs ++ post) ≡ ok m
unfolding encode_control decode_control kind_of encode_auth_hello decode_auth_hello encode_heartbeat
    decode_heartbeat encode_epoch_grant decode_epoch_grant encode_epoch_revoke decode_epoch_revoke
    encode_readiness_report decode_readiness_report encode_replay_request decode_replay_request
    encode_admission_decision decode_admission_decision encode_result_ack decode_result_ack
    encode_status_reply decode_status_reply
decode-encode_control (auth_hello m) out_cap v word bs post done h =
    ap (λ (r : Result AuthHello). r >>= λ x. ok (auth_hello x))
      (RoundTrip.decode-encode _ out_cap _ _ _ m (auth_hello_writers-Writes m)
        (auth_hello_reader-Reads m v) word bs done post h)
decode-encode_control (heartbeat m) out_cap v word bs post done h =
    ap (λ (r : Result Heartbeat). r >>= λ x. ok (heartbeat x))
      (RoundTrip.decode-encode _ out_cap _ _ _ m (heartbeat_writers-Writes m)
        (heartbeat_reader-Reads m v) word bs done post h)
decode-encode_control (epoch_grant m) out_cap v word bs post done h =
    ap (λ (r : Result EpochGrant). r >>= λ x. ok (epoch_grant x))
      (RoundTrip.decode-encode _ out_cap _ _ _ m (epoch_grant_writers-Writes m)
        (epoch_grant_reader-Reads m v) word bs done post h)
decode-encode_control (epoch_revoke m) out_cap v word bs post done h =
    ap (λ (r : Result EpochRevoke). r >>= λ x. ok (epoch_revoke x))
      (RoundTrip.decode-encode _ out_cap _ _ _ m (epoch_revoke_writers-Writes m)
        (epoch_revoke_reader-Reads m v) word bs done post h)
decode-encode_control (readiness_report m) out_cap v word bs post done h =
    ap (λ (r : Result ReadinessReport). r >>= λ x. ok (readiness_report x))
      (RoundTrip.decode-encode _ out_cap _ _ _ m (readiness_report_writers-Writes m)
        (readiness_report_reader-Reads m v) word bs done post h)
decode-encode_control (replay_request m) out_cap v word bs post done h =
    ap (λ (r : Result ReplayRequest). r >>= λ x. ok (replay_request x))
      (RoundTrip.decode-encode _ out_cap _ _ _ m (replay_request_writers-Writes m)
        (replay_request_reader-Reads m v) word bs done post h)
decode-encode_control (admission_decision m) out_cap v word bs post done h =
    ap (λ (r : Result AdmissionDecision). r >>= λ x. ok (admission_decision x))
      (RoundTrip.decode-encode _ out_cap _ _ _ m (admission_decision_writers-Writes m)
        (admission_decision_reader-Reads m v) word bs done post h)
decode-encode_control (result_ack m) out_cap v word bs post done h =
    ap (λ (r : Result ResultAck). r >>= λ x. ok (result_ack x))
      (RoundTrip.decode-encode _ out_cap _ _ _ m (result_ack_writers-Writes m)
        (result_ack_reader-Reads m v) word bs done post h)
decode-encode_control (status_reply m) out_cap v word bs post done h =
    ap (λ (r : Result StatusReply). r >>= λ x. ok (status_reply x))
      (RoundTrip.decode-encode _ out_cap _ _ _ m (status_reply_writers-Writes m)
        (status_reply_reader-Reads m v) word bs done post h)

-- Every proper prefix of an encoded control message is refused as malformed.
pub decode_control_cut :
    (m : ControlMessage) (out_cap : ℕ)
    → IsControl m
    → out_cap < 2 ^ 32
    → (bs s t : List ℕ) (x : ℕ) → encode_control m out_cap ≡ ok bs
    → bs ≡ s ++ (x ∷ t)
    → decode_control (kind_of m) s ≡ err wire_malformed
unfolding encode_control decode_control kind_of encode_auth_hello decode_auth_hello encode_heartbeat
    decode_heartbeat encode_epoch_grant decode_epoch_grant encode_epoch_revoke decode_epoch_revoke
    encode_readiness_report decode_readiness_report encode_replay_request decode_replay_request
    encode_admission_decision decode_admission_decision encode_result_ack decode_result_ack
    encode_status_reply decode_status_reply
decode_control_cut (auth_hello m) out_cap v word bs s t x done e =
    ap (λ (r : Result AuthHello). r >>= λ y. ok (auth_hello y))
      (RoundTrip.decode_cut _ out_cap _ _ _ m (auth_hello_writers-Writes m)
        (auth_hello_reader-Reads m v) word bs done s x t e)
decode_control_cut (heartbeat m) out_cap v word bs s t x done e =
    ap (λ (r : Result Heartbeat). r >>= λ y. ok (heartbeat y))
      (RoundTrip.decode_cut _ out_cap _ _ _ m (heartbeat_writers-Writes m)
        (heartbeat_reader-Reads m v) word bs done s x t e)
decode_control_cut (epoch_grant m) out_cap v word bs s t x done e =
    ap (λ (r : Result EpochGrant). r >>= λ y. ok (epoch_grant y))
      (RoundTrip.decode_cut _ out_cap _ _ _ m (epoch_grant_writers-Writes m)
        (epoch_grant_reader-Reads m v) word bs done s x t e)
decode_control_cut (epoch_revoke m) out_cap v word bs s t x done e =
    ap (λ (r : Result EpochRevoke). r >>= λ y. ok (epoch_revoke y))
      (RoundTrip.decode_cut _ out_cap _ _ _ m (epoch_revoke_writers-Writes m)
        (epoch_revoke_reader-Reads m v) word bs done s x t e)
decode_control_cut (readiness_report m) out_cap v word bs s t x done e =
    ap (λ (r : Result ReadinessReport). r >>= λ y. ok (readiness_report y))
      (RoundTrip.decode_cut _ out_cap _ _ _ m (readiness_report_writers-Writes m)
        (readiness_report_reader-Reads m v) word bs done s x t e)
decode_control_cut (replay_request m) out_cap v word bs s t x done e =
    ap (λ (r : Result ReplayRequest). r >>= λ y. ok (replay_request y))
      (RoundTrip.decode_cut _ out_cap _ _ _ m (replay_request_writers-Writes m)
        (replay_request_reader-Reads m v) word bs done s x t e)
decode_control_cut (admission_decision m) out_cap v word bs s t x done e =
    ap (λ (r : Result AdmissionDecision). r >>= λ y. ok (admission_decision y))
      (RoundTrip.decode_cut _ out_cap _ _ _ m (admission_decision_writers-Writes m)
        (admission_decision_reader-Reads m v) word bs done s x t e)
decode_control_cut (result_ack m) out_cap v word bs s t x done e =
    ap (λ (r : Result ResultAck). r >>= λ y. ok (result_ack y))
      (RoundTrip.decode_cut _ out_cap _ _ _ m (result_ack_writers-Writes m)
        (result_ack_reader-Reads m v) word bs done s x t e)
decode_control_cut (status_reply m) out_cap v word bs s t x done e =
    ap (λ (r : Result StatusReply). r >>= λ y. ok (status_reply y))
      (RoundTrip.decode_cut _ out_cap _ _ _ m (status_reply_writers-Writes m)
        (status_reply_reader-Reads m v) word bs done s x t e)
