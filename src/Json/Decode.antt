-- ===== src/Json/Decode.antt =====
-- src/core/json_min.c: `json_decode_string`, `json_parse_number` and the two words.
use obicall.Common.{
  ℕ, zero, suc, ◌+◌, ◌≤◌, ◌<◌, ◌≡◌, inl, inr, Bool, true, false, List, [], ◌∷◌, ◌++◌, Option, none,
  some, arith, length, length-append, ltb, leb, ◌==◌, if◌then◌else◌, same_bytes, Option-cases,
}
use obicall.Common.Text.{codes}
use obicall.Json.Scan.{byte_at}

-- What was written to the output, and whether the function succeeded: a refusal leaves what was
-- written before it.
pub record Decoded : Type 0 where
  pub written : List ℕ
  pub complete : Bool

-- The character that an escape other than \u stands for.
unfoldable pub unescape : ℕ → Option ℕ
unescape esc =
    if esc == 0x22
    then some 0x22
    else if esc == 0x5C
    then some 0x5C
    else if esc == b'/'
    then some b'/'
    else if esc == b'n'
    then some 10
    else if esc == b't'
    then some 9
    else if esc == b'r'
    then some 13
    else if esc == b'b'
    then some 8
    else if esc == b'f'
    then some 12
    else none

-- `out` holds the `oi` bytes that were written.
unfoldable pub decode_loop : ℕ → List ℕ → ℕ → ℕ → List ℕ → Decoded
decode_loop zero json out_cap i out = record { written = out; complete = false }
decode_loop (suc fuel) json out_cap i out =
    let refused : Decoded = record { written = out; complete = false } in
    let full = leb out_cap (length out) in
    let after_unicode = decode_loop fuel json out_cap (i + 6) (out ++ (b'?' ∷ [])) in
    let after_escape : Decoded = elim (unescape (byte_at json (i + 1))) [
      | none ↦ refused
      | some decoded ↦
          let rest = decode_loop fuel json out_cap (i + 2) (out ++ (decoded ∷ [])) in
          if full then refused else rest
    ] in
    let after_byte = decode_loop fuel json out_cap (i + 1) (out ++ (byte_at json i ∷ [])) in
    if leb (length json) i
    then (if full then refused else record { written = out; complete = true })
    else if byte_at json i == 0x5C
    then (if leb (length json) (i + 1)
        then refused
        else if byte_at json (i + 1) == b'u'
        then (if ltb (length json) (i + 6)
            then refused
            else if full
            then refused
            else after_unicode)
        else after_escape)
    else if full
    then refused
    else after_byte

-- One round for each byte, and one to end.
unfoldable pub decode_string : List ℕ → ℕ → Decoded
decode_string json out_cap = decode_loop (suc (length json)) json out_cap 0 []

-- `strtod` on a text, with the value as a bit pattern, if it reads one.
abbrev pub Strtod : Type 0
Strtod = List ℕ → Option ℕ

unfoldable pub parse_number : Strtod → List ℕ → Option ℕ
parse_number strtod json = if leb 64 (length json) then none else strtod json

unfoldable pub span_is_true : List ℕ → Bool
span_is_true json = same_bytes json (codes "true")

unfoldable pub span_is_false : List ℕ → Bool
span_is_false json = same_bytes json (codes "false")

-- What the decoder leaves in an array of `out_cap` bytes: it never writes behind it, and leaves room
-- for the terminator exactly if it succeeds.
abbrev pub Fits : ℕ → Decoded → Type 0
Fits out_cap d = (length d.written ≤ out_cap) × (d.complete ≡ true → length d.written < out_cap)

decode_loop-Fits :
    (fuel : ℕ) (json : List ℕ) (out_cap i : ℕ) (out : List ℕ)
    → length out ≤ out_cap
    → Fits out_cap (decode_loop fuel json out_cap i out)
unfolding decode_loop
decode_loop-Fits zero json out_cap i out le = (le, λ e. absurd cc)
decode_loop-Fits (suc fuel) json out_cap i out le =
    elim (Option-cases (unescape (byte_at json (i + 1)))) [
      | inl unknown ↦ ground (
        arith,
        unknown,
        length-append {0} out (b'?' ∷ []),
        length-append {0} out (byte_at json i ∷ []),
        decode_loop-Fits fuel json out_cap (i + 6) (out ++ (b'?' ∷ [])),
        decode_loop-Fits fuel json out_cap (i + 1) (out ++ (byte_at json i ∷ [])),
      )
      | inr (decoded, known) ↦ ground (
        arith,
        known,
        length-append {0} out (b'?' ∷ []),
        length-append {0} out (decoded ∷ []),
        length-append {0} out (byte_at json i ∷ []),
        decode_loop-Fits fuel json out_cap (i + 6) (out ++ (b'?' ∷ [])),
        decode_loop-Fits fuel json out_cap (i + 2) (out ++ (decoded ∷ [])),
        decode_loop-Fits fuel json out_cap (i + 1) (out ++ (byte_at json i ∷ [])),
      )
    ]

pub decode_string-Fits : (json : List ℕ) (out_cap : ℕ) → Fits out_cap (decode_string json out_cap)
unfolding decode_string
decode_string-Fits json out_cap =
    decode_loop-Fits (suc (length json)) json out_cap 0 [] (omega arith)
