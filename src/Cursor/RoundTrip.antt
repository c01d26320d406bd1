-- ===== src/Cursor/RoundTrip.antt =====
-- An encoder and a decoder of one wire format: what each makes of the other's output.
use obicall.Common.{
  ℕ, ◌^◌, ◌≤◌, ◌<◌, ◌≡◌, sym, ap, subst, List, ◌∷◌, ◌++◌, arith, length, length-append,
}
use obicall.Cursor.Write.{Writer, block, encode_with}
use obicall.Cursor.Read.{Reader, decode_with}
use obicall.Cursor.Writes.{Writes, encode_with-ok}
use obicall.Cursor.Reads.{Reads}
use obicall.Cursor.Codec.{decode_with-Reads, decode_with_cut}
use obicall.Status.{Status, ok, err, wire_malformed}

module _ {ℓ} {A : Type ℓ} (failed : Status) (out_cap : ℕ) (body : List Writer) (reader : Reader A)
    (layout : List ℕ) (a : A) (w : Writes (block body) layout) (r : Reads reader layout a)
    (word : out_cap < 2 ^ 32) (bs : List ℕ) (done : encode_with failed out_cap body ≡ ok bs) where
  is_layout : (bs ≡ layout) × (length bs ≤ out_cap)
  is_layout = encode_with-ok failed out_cap body layout bs w word done

  Reads-written : Reads reader bs a
  Reads-written = subst (λ (out : List ℕ). Reads reader out a) (sym is_layout.0) r

  pub decode-encode :
      (post : List ℕ) → length (bs ++ post) < 2 ^ 32 → decode_with reader (bs ++ post) ≡ ok a
  decode-encode post h = decode_with-Reads reader bs a Reads-written post h

  pub decode_cut :
      (s : List ℕ) (x : ℕ) (t : List ℕ)
      → bs ≡ s ++ (x ∷ t)
      → decode_with reader s ≡ err wire_malformed
  decode_cut s x t e =
      decode_with_cut reader bs a Reads-written s x t
        (omega (arith, is_layout.1, ap length e, length-append s (x ∷ t), word)) e
