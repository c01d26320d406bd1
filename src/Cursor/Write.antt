-- ===== src/Cursor/Write.antt =====
-- `wcursor_t` and the `wc_*` functions. A writer is a function on the cursor and its `ok` flag, and
-- the body of an encoder is a list of writers, one for each statement.
use obicall.Common.{
  ℕ, ◌+◌, ◌-◌, ◌%◌, ◌^◌, Bool, true, false, List, [], ◌∷◌, ◌++◌, ltb, if◌then◌else◌, length, take,
  map, ℤ, to_unsigned,
}
use obicall.Cursor.Octets.{octets}
use obicall.Status.{Status, Result, ok, err}

-- `out` is what `p[0 .. off)` holds.
pub record WCursor : Type 0 where
  pub out : List ℕ
  pub cap : ℕ
  pub off : ℕ
  pub is_ok : Bool

abbrev pub Writer : Type 0
Writer = WCursor → WCursor

-- `c->cap - c->off` on uint32_t
abbrev pub room : WCursor → ℕ
room c = (c.cap + 2 ^ 32 - c.off) % 2 ^ 32

unfoldable pub wc_bytes : List ℕ → Writer
wc_bytes src c =
    if c.is_ok
    then (if ltb (room c) (length src)
        then record c { is_ok = false }
        else record c { out = c.out ++ src; off = (c.off + length src) % 2 ^ 32 })
    else c

unfoldable pub wc_u8 : ℕ → Writer
wc_u8 v = wc_bytes (octets 1 v)

unfoldable pub wc_u16 : ℕ → Writer
wc_u16 v = wc_bytes (octets 2 v)

unfoldable pub wc_u32 : ℕ → Writer
wc_u32 v = wc_bytes (octets 4 v)

unfoldable pub wc_u64 : ℕ → Writer
wc_u64 v = wc_bytes (octets 8 v)

unfoldable pub wc_i64 : ℤ → Writer
wc_i64 v = wc_u64 (to_unsigned 63 v)

unfoldable pub wc_i32 : ℤ → Writer
wc_i32 v = wc_u32 (to_unsigned 31 v)

-- A double is its bit pattern.
unfoldable pub wc_f64 : ℕ → Writer
wc_f64 bits = wc_u64 bits

-- `fixed_len` is the length of the array that `s` names.
unfoldable pub wc_fixed : List ℕ → Writer
wc_fixed s = wc_bytes s

-- Statements, one after the other.
unfoldable pub block : List Writer → Writer
block [] c = c
block (m ∷ ms) c = block ms (m c)

-- `for (i = 0; i < n; ++i) write(xs[i])`
unfoldable pub wc_each {ℓ} : {A : Type ℓ} → (A → Writer) → ℕ → List A → Writer
wc_each write n xs = block (map write (take n xs))

abbrev pub start : ℕ → WCursor
start out_cap = record { out = []; cap = out_cap; off = 0; is_ok = true }

-- The end of an encoder: `if (!ok) return failed;`, and the buffer up to `*out_len = c.off`.
unfoldable pub encoded : Status → WCursor → Result (List ℕ)
encoded failed c = if c.is_ok then ok (take c.off c.out) else err failed

unfoldable pub encode_with : Status → ℕ → List Writer → Result (List ℕ)
encode_with failed out_cap body = encoded failed (block body (start out_cap))
