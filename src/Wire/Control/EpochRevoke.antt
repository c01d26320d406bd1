-- ===== src/Wire/Control/EpochRevoke.antt =====
-- include/obicall/wire.h and src/core/wire.c: the epoch_revoke message and its codec.
use obicall.Common.{ℕ, List, [], ◌∷◌, ℤ, IsSigned, to_unsigned}
use obicall.Cursor.Octets.{octets}
use obicall.Cursor.Write.{Writer, wc_u32, wc_u64, wc_i64, block, encode_with}
use obicall.Cursor.Read.{Reader, ◌>>=◌, pure, rc_u32, rc_u64, rc_i64, decode_with}
use obicall.Cursor.Writes.{Writes, fields, writes_rules}
use obicall.Cursor.Reads.{Reads}
use obicall.Cursor.Codec.{reads_rules, IsWord}
use obicall.Status.{Result, buffer_too_small}

pub record EpochRevoke : Type 0 where
  pub revoked_epoch : ℕ
  pub revoked_broker_id : ℕ
  pub revoked_at_ns : ℤ
  pub reason_code : ℕ

-- Every field holds a value of its C type.
pub record IsEpochRevoke (m : EpochRevoke) : Type 0 where
  pub revoked_epoch_word : IsWord 64 m.revoked_epoch
  pub revoked_broker_id_word : IsWord 32 m.revoked_broker_id
  pub revoked_at_ns_word : IsSigned 63 m.revoked_at_ns
  pub reason_code_word : IsWord 32 m.reason_code

pub epoch_revoke_writers : EpochRevoke → List Writer
epoch_revoke_writers m =
    wc_u64 m.revoked_epoch
    ∷ wc_u32 m.revoked_broker_id
    ∷ wc_i64 m.revoked_at_ns
    ∷ wc_u32 m.reason_code
    ∷ []

unfoldable pub encode_epoch_revoke : EpochRevoke → ℕ → Result (List ℕ)
encode_epoch_revoke m out_cap = encode_with buffer_too_small out_cap (epoch_revoke_writers m)

pub epoch_revoke_reader : Reader EpochRevoke
epoch_revoke_reader = do
  revoked_epoch ← rc_u64
  revoked_broker_id ← rc_u32
  revoked_at_ns ← rc_i64
  reason_code ← rc_u32
  pure (record {
    revoked_epoch = revoked_epoch;
    revoked_broker_id = revoked_broker_id;
    revoked_at_ns = revoked_at_ns;
    reason_code = reason_code;
  })

unfoldable pub decode_epoch_revoke : List ℕ → Result EpochRevoke
decode_epoch_revoke input = decode_with epoch_revoke_reader input

-- The wire format.
pub epoch_revoke_layout : EpochRevoke → List ℕ
epoch_revoke_layout m = fields (
    octets 8 m.revoked_epoch
    ∷ octets 4 m.revoked_broker_id
    ∷ octets 8 (to_unsigned 63 m.revoked_at_ns)
    ∷ octets 4 m.reason_code
    ∷ [])

pub epoch_revoke_writers-Writes :
    (m : EpochRevoke) → Writes (block (epoch_revoke_writers m)) (epoch_revoke_layout m)
unfolding epoch_revoke_writers epoch_revoke_layout
epoch_revoke_writers-Writes m = search writes_rules depth 40

pub epoch_revoke_reader-Reads :
    (m : EpochRevoke) → IsEpochRevoke m → Reads epoch_revoke_reader (epoch_revoke_layout m) m
unfolding epoch_revoke_reader epoch_revoke_layout
epoch_revoke_reader-Reads m v =
    search
      (
        reads_rules, v.revoked_epoch_word, v.revoked_broker_id_word, v.revoked_at_ns_word,
        v.reason_code_word,
      )
      depth 40
