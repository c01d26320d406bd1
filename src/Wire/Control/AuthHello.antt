-- ===== src/Wire/Control/AuthHello.antt =====
-- include/obicall/wire.h and src/core/wire.c: the auth_hello message and its codec.
use obicall.Common.{ℕ, ◌≡◌, List, [], ◌∷◌, length}
use obicall.Cursor.Octets.{octets}
use obicall.Cursor.Write.{Writer, wc_u32, wc_bytes, block, encode_with}
use obicall.Cursor.Read.{Reader, ◌>>=◌, pure, rc_u32, rc_bytes, decode_with}
use obicall.Cursor.Writes.{Writes, fields, writes_rules}
use obicall.Cursor.Reads.{Reads}
use obicall.Cursor.Codec.{reads_rules, IsWord}
use obicall.Status.{Result, buffer_too_small}

pub record AuthHello : Type 0 where
  pub protocol_version : ℕ
  pub role : ℕ
  pub run_token : List ℕ

-- Every field holds a value of its C type.
pub record IsAuthHello (m : AuthHello) : Type 0 where
  pub protocol_version_word : IsWord 32 m.protocol_version
  pub role_word : IsWord 32 m.role
  pub run_token_length : length m.run_token ≡ 32

pub auth_hello_writers : AuthHello → List Writer
auth_hello_writers m = wc_u32 m.protocol_version ∷ wc_u32 m.role ∷ wc_bytes m.run_token ∷ []

unfoldable pub encode_auth_hello : AuthHello → ℕ → Result (List ℕ)
encode_auth_hello m out_cap = encode_with buffer_too_small out_cap (auth_hello_writers m)

pub auth_hello_reader : Reader AuthHello
auth_hello_reader = do
  protocol_version ← rc_u32
  role ← rc_u32
  run_token ← rc_bytes 32
  pure (record { protocol_version = protocol_version; role = role; run_token = run_token })

unfoldable pub decode_auth_hello : List ℕ → Result AuthHello
decode_auth_hello input = decode_with auth_hello_reader input

-- The wire format.
pub auth_hello_layout : AuthHello → List ℕ
auth_hello_layout m = fields (octets 4 m.protocol_version ∷ octets 4 m.role ∷ m.run_token ∷ [])

pub auth_hello_writers-Writes :
    (m : AuthHello) → Writes (block (auth_hello_writers m)) (auth_hello_layout m)
unfolding auth_hello_writers auth_hello_layout
auth_hello_writers-Writes m = search writes_rules depth 40

pub auth_hello_reader-Reads :
    (m : AuthHello) → IsAuthHello m → Reads auth_hello_reader (auth_hello_layout m) m
unfolding auth_hello_reader auth_hello_layout
auth_hello_reader-Reads m v =
    search (reads_rules, v.protocol_version_word, v.role_word, v.run_token_length) depth 40
