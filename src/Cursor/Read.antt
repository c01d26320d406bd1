-- ===== src/Cursor/Read.antt =====
-- `rcursor_t` and the `rc_*` functions. A reader takes the cursor and its `ok` flag to a value and
-- the cursor after it, or returns a status early.
use obicall.Common.{
  ℕ, zero, suc, ◌+◌, ◌-◌, ◌%◌, ◌^◌, Bool, true, false, not, ◌||◌, List, [], ◌∷◌, ltb, if◌then◌else◌,
  length, take, drop, replicate, ℤ, of_unsigned,
}
use obicall.Cursor.Octets.{join}
use obicall.Status.{Status, wire_malformed, Result, ok, err}

pub record RCursor : Type 0 where
  pub p : List ℕ
  pub len : ℕ
  pub off : ℕ
  pub is_ok : Bool

abbrev pub Reader {ℓ} : Type ℓ → Type ℓ
Reader A = RCursor → Result (A × RCursor)

abbrev pub after {ℓ κ} :
    {A : Type ℓ} {B : Type κ} → Result (A × RCursor) → (A → Reader B) → Result (B × RCursor)
after (err e) f = err e
after (ok (a, c)) f = f a c

infixl 5 ◌>>=◌ ◌>>◌
unfoldable pub ◌>>=◌ {ℓ κ} : {A : Type ℓ} {B : Type κ} → Reader A → (A → Reader B) → Reader B
◌>>=◌ m f c = after (m c) f

abbrev pub ◌>>◌ {ℓ} : {B : Type ℓ} → Reader (Unit {0}) → Reader B → Reader B
m >> n = m >>= λ _. n

unfoldable pub pure {ℓ} : {A : Type ℓ} → A → Reader A
pure a c = ok (a, c)

-- `c->len - c->off` on uint32_t
abbrev pub left : RCursor → ℕ
left c = (c.len + 2 ^ 32 - c.off) % 2 ^ 32

-- Every destination is zeroed before it is read into.
unfoldable pub rc_bytes : ℕ → Reader (List ℕ)
rc_bytes n c =
    if c.is_ok
    then (if ltb (left c) n
        then ok (replicate n 0, record c { is_ok = false })
        else ok (take n (drop c.off c.p), record c { off = (c.off + n) % 2 ^ 32 }))
    else ok (replicate n 0, c)

unfoldable pub rc_uint : ℕ → Reader ℕ
rc_uint n = do b ← rc_bytes n; pure (join b)

unfoldable pub rc_u8 : Reader ℕ
rc_u8 = rc_uint 1

unfoldable pub rc_u16 : Reader ℕ
rc_u16 = rc_uint 2

unfoldable pub rc_u32 : Reader ℕ
rc_u32 = rc_uint 4

unfoldable pub rc_u64 : Reader ℕ
rc_u64 = rc_uint 8

unfoldable pub rc_i64 : Reader ℤ
rc_i64 = do v ← rc_u64; pure (of_unsigned 63 v)

unfoldable pub rc_i32 : Reader ℤ
rc_i32 = do v ← rc_u32; pure (of_unsigned 31 v)

-- A double is its bit pattern.
unfoldable pub rc_f64 : Reader ℕ
rc_f64 = rc_u64

unfoldable pub rc_fixed : ℕ → Reader (List ℕ)
rc_fixed fixed_len = rc_bytes fixed_len

-- `for (i = 0; i < n; ++i) xs[i] = read(...)`
unfoldable pub rc_each {ℓ} : {A : Type ℓ} → Reader A → ℕ → Reader (List A)
rc_each read zero = pure []
rc_each read (suc n) = do x ← read; xs ← rc_each read n; pure (x ∷ xs)

-- `if (!ok || bad) return OBICALL_ERR_WIRE_MALFORMED;`
unfoldable pub rc_check : Bool → Reader (Unit {0})
rc_check bad c = if not c.is_ok || bad then err wire_malformed else ok (tt, c)

-- `if (bad) return failed;`, where `ok` is known to hold.
unfoldable pub rc_fail_if : Bool → Status → Reader (Unit {0})
rc_fail_if bad failed c = if bad then err failed else ok (tt, c)

-- The end of a decoder: `return ok ? OBICALL_OK : OBICALL_ERR_WIRE_MALFORMED;` with the output.
abbrev pub decoded {ℓ} : {A : Type ℓ} → Result (A × RCursor) → Result A
decoded (ok (a, c)) = if c.is_ok then ok a else err wire_malformed
decoded (err e) = err e

unfoldable pub decode_with {ℓ} : {A : Type ℓ} → Reader A → List ℕ → Result A
decode_with body input =
    decoded (body (record { p = input; len = length input; off = 0; is_ok = true }))
