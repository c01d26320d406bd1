-- ===== src/Common/Text.antt =====
-- The bytes of a text literal, and texts in arrays of `char`.
use Prim.Native.Nat.{ℕ, ◌-◌}
use Prim.Native.Char.{code}
use Prim.Native.String.{String}
use mathlib.Core.Bool.{Bool}
use mathlib.Core.List.{List, [], ◌∷◌}
use obicall.Common.Tests.{◌==◌, if◌then◌else◌, same_bytes}
use obicall.Common.Lists.{padded, take}

-- The code points of a text: its bytes, if it is ASCII.
abbrev pub codes : String → List ℕ
codes String.[] = []
codes (String.◌∷◌ c s) = code c ∷ codes s

-- The bytes before the first NUL. Where there is none the text is taken to end with its array.
unfoldable pub text_of : List ℕ → List ℕ
text_of [] = []
text_of (c ∷ cs) = if c == 0 then [] else c ∷ text_of cs

-- `strcmp(a, b) == 0`
unfoldable pub str_eq : List ℕ → List ℕ → Bool
str_eq a b = same_bytes (text_of a) (text_of b)

-- `strncpy(dst, src, n - 1)` to an array of `n` bytes that are 0.
unfoldable pub strncpy : ℕ → List ℕ → List ℕ
strncpy n src = padded n 0 (take (n - 1) (text_of src))
