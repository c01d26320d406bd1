-- ===== src/Wire/Control/EpochGrant.antt =====
-- include/obicall/wire.h and src/core/wire.c: the epoch_grant message and its codec.
use obicall.Common.{ℕ, List, [], ◌∷◌, ℤ, IsSigned, to_unsigned}
use obicall.Cursor.Octets.{octets}
use obicall.Cursor.Write.{Writer, wc_u32, wc_u64, wc_i64, block, encode_with}
use obicall.Cursor.Read.{Reader, ◌>>=◌, pure, rc_u32, rc_u64, rc_i64, decode_with}
use obicall.Cursor.Writes.{Writes, fields, writes_rules}
use obicall.Cursor.Reads.{Reads}
use obicall.Cursor.Codec.{reads_rules, IsWord}
use obicall.Status.{Result, buffer_too_small}

pub record EpochGrant : Type 0 where
  pub new_epoch : ℕ
  pub granted_to_broker_id : ℕ
  pub granted_at_ns : ℤ

-- Every field holds a value of its C type.
pub record IsEpochGrant (m : EpochGrant) : Type 0 where
  pub new_epoch_word : IsWord 64 m.new_epoch
  pub granted_to_broker_id_word : IsWord 32 m.granted_to_broker_id
  pub granted_at_ns_word : IsSigned 63 m.granted_at_ns

pub epoch_grant_writers : EpochGrant → List Writer
epoch_grant_writers m =
    wc_u64 m.new_epoch ∷ wc_u32 m.granted_to_broker_id ∷ wc_i64 m.granted_at_ns ∷ []

unfoldable pub encode_epoch_grant : EpochGrant → ℕ → Result (List ℕ)
encode_epoch_grant m out_cap = encode_with buffer_too_small out_cap (epoch_grant_writers m)

pub epoch_grant_reader : Reader EpochGrant
epoch_grant_reader = do
  new_epoch ← rc_u64
  granted_to_broker_id ← rc_u32
  granted_at_ns ← rc_i64
  pure (record {
    new_epoch = new_epoch;
    granted_to_broker_id = granted_to_broker_id;
    granted_at_ns = granted_at_ns;
  })

unfoldable pub decode_epoch_grant : List ℕ → Result EpochGrant
decode_epoch_grant input = decode_with epoch_grant_reader input

-- The wire format.
pub epoch_grant_layout : EpochGrant → List ℕ
epoch_grant_layout m = fields (
    octets 8 m.new_epoch
    ∷ octets 4 m.granted_to_broker_id
    ∷ octets 8 (to_unsigned 63 m.granted_at_ns)
    ∷ [])

pub epoch_grant_writers-Writes :
    (m : EpochGrant) → Writes (block (epoch_grant_writers m)) (epoch_grant_layout m)
unfolding epoch_grant_writers epoch_grant_layout
epoch_grant_writers-Writes m = search writes_rules depth 40

pub epoch_grant_reader-Reads :
    (m : EpochGrant) → IsEpochGrant m → Reads epoch_grant_reader (epoch_grant_layout m) m
unfolding epoch_grant_reader epoch_grant_layout
epoch_grant_reader-Reads m v =
    search (reads_rules, v.new_epoch_word, v.granted_to_broker_id_word, v.granted_at_ns_word) depth
      40
