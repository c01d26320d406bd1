-- ===== src/Cursor/Codec.antt =====
-- The fields of a message, read back from their bytes, and the results of whole decoders.
use obicall.Common.{
  ℕ, zero, suc, ◌*◌, ◌^◌, ◌≤◌, ◌<◌, ◌≡◌, refl, sym, ap, ◌∙◌, subst, Bool, true, false, List, [],
  ◌∷◌, ◌++◌, append-nil, arith, length, map, take, length-take, take-All, ℤ, IsSigned, to_unsigned,
  of_unsigned, of_unsigned-to_unsigned, All,
}
use obicall.Cursor.Octets.{octets, length-octets, join, join-octets}
use obicall.Cursor.Read.{
  RCursor, Reader, ◌>>=◌, ◌>>◌, pure, rc_bytes, rc_uint, rc_u8, rc_u16, rc_u32, rc_u64, rc_i64,
  rc_i32, rc_f64, rc_fixed, rc_each, rc_check, decode_with, decoded,
}
use obicall.Cursor.Writes.{fields, each_field}
use obicall.Cursor.Reads.{
  Reads, IsSticky, IsBad, At, skip, Reads-bind, IsSticky-bind, Reads-pure, IsSticky-pure,
  Reads-bytes, IsSticky-bytes, IsSticky-check, Reads-check,
}
use obicall.Status.{wire_malformed, Result, ok, err}

-- A reader of a field followed by a cast.
Reads-cast {ℓ κ} :
    {A : Type ℓ} {B : Type κ} (m : Reader A) (cast : A → B) (bs : List ℕ) (w : A) (v : B)
    → Reads m bs w
    → cast w ≡ v
    → Reads (m >>= λ u. pure (cast u)) bs v
Reads-cast m cast bs w v r e =
    subst (λ out. Reads (m >>= λ u. pure (cast u)) out v) (append-nil bs)
      (Reads-bind m (λ u. pure (cast u)) bs [] w v r
        (subst (λ b. Reads (pure (cast w)) [] b) e (Reads-pure (cast w)))
        (λ u. IsSticky-pure (cast u)))

-- An unsigned field of `n` bytes.
Reads-uint : (n v : ℕ) → n < 9 → v < 2 ^ (8 * n) → Reads (rc_uint n) (octets n v) v
unfolding rc_uint
Reads-uint n v h fits =
    Reads-cast (rc_bytes n) join (octets n v) (octets n v) v
      (Reads-bytes n (octets n v) (length-octets n v)) (join-octets n v h fits)

IsSticky-uint : (n : ℕ) → IsSticky (rc_uint n)
unfolding rc_uint
IsSticky-uint n = IsSticky-bind (rc_bytes n) _ (IsSticky-bytes n) (λ b. IsSticky-pure (join b))

pub Reads-u8 : (v : ℕ) → v < 2 ^ 8 → Reads rc_u8 (octets 1 v) v
unfolding rc_u8
Reads-u8 v h = Reads-uint 1 v (omega arith) h

pub Reads-u16 : (v : ℕ) → v < 2 ^ 16 → Reads rc_u16 (octets 2 v) v
unfolding rc_u16
Reads-u16 v h = Reads-uint 2 v (omega arith) h

pub Reads-u32 : (v : ℕ) → v < 2 ^ 32 → Reads rc_u32 (octets 4 v) v
unfolding rc_u32
Reads-u32 v h = Reads-uint 4 v (omega arith) h

pub Reads-u64 : (v : ℕ) → v < 2 ^ 64 → Reads rc_u64 (octets 8 v) v
unfolding rc_u64
Reads-u64 v h = Reads-uint 8 v (omega arith) h

pub Reads-f64 : (v : ℕ) → v < 2 ^ 64 → Reads rc_f64 (octets 8 v) v
unfolding rc_f64
Reads-f64 v h = Reads-u64 v h

pub Reads-fixed : (n : ℕ) (s : List ℕ) → length s ≡ n → Reads (rc_fixed n) s s
unfolding rc_fixed
Reads-fixed n s h = Reads-bytes n s h

to_unsigned-lt :
    (v : ℤ)
    → (IsSigned 63 v → to_unsigned 63 v < 2 ^ 64) × (IsSigned 31 v → to_unsigned 31 v < 2 ^ 32)
unfolding to_unsigned
to_unsigned-lt v = (λ h. ground arith, λ h. ground arith)

pub Reads-i64 : (v : ℤ) → IsSigned 63 v → Reads rc_i64 (octets 8 (to_unsigned 63 v)) v
unfolding rc_i64
Reads-i64 v h =
    Reads-cast rc_u64 (of_unsigned 63) (octets 8 (to_unsigned 63 v)) (to_unsigned 63 v) v
      (Reads-u64 (to_unsigned 63 v) ((to_unsigned-lt v).0 h)) ((of_unsigned-to_unsigned v).0 h)

pub Reads-i32 : (v : ℤ) → IsSigned 31 v → Reads rc_i32 (octets 4 (to_unsigned 31 v)) v
unfolding rc_i32
Reads-i32 v h =
    Reads-cast rc_u32 (of_unsigned 31) (octets 4 (to_unsigned 31 v)) (to_unsigned 31 v) v
      (Reads-u32 (to_unsigned 31 v) ((to_unsigned-lt v).1 h)) ((of_unsigned-to_unsigned v).1 h)

pub IsSticky-u8 : IsSticky rc_u8
unfolding rc_u8
IsSticky-u8 = IsSticky-uint 1

pub IsSticky-u16 : IsSticky rc_u16
unfolding rc_u16
IsSticky-u16 = IsSticky-uint 2

pub IsSticky-u32 : IsSticky rc_u32
unfolding rc_u32
IsSticky-u32 = IsSticky-uint 4

pub IsSticky-u64 : IsSticky rc_u64
unfolding rc_u64
IsSticky-u64 = IsSticky-uint 8

pub IsSticky-f64 : IsSticky rc_f64
unfolding rc_f64
IsSticky-f64 = IsSticky-u64

pub IsSticky-fixed : (n : ℕ) → IsSticky (rc_fixed n)
unfolding rc_fixed
IsSticky-fixed n = IsSticky-bytes n

pub IsSticky-i32 : IsSticky rc_i32
unfolding rc_i32
IsSticky-i32 = IsSticky-bind rc_u32 _ IsSticky-u32 (λ b. IsSticky-pure (of_unsigned 31 b))

pub IsSticky-i64 : IsSticky rc_i64
unfolding rc_i64
IsSticky-i64 = IsSticky-bind rc_u64 _ IsSticky-u64 (λ b. IsSticky-pure (of_unsigned 63 b))

-- The rules for a decoder's statements. A decoder that reads on after a failure must stay failed.
module _ {ℓ κ} {A : Type ℓ} {B : Type κ} where
  pub Reads-field :
      (rest : List (List ℕ)) {m : Reader A} {f : A → Reader B} {bs : List ℕ} {a : A} {b : B}
      → Reads m bs a
      → ((x : A) → IsSticky (f x))
      → Reads (f a) (fields rest) b
      → Reads (m >>= f) (fields (bs ∷ rest)) b
  unfolding fields
  Reads-field rest {m} {f} {bs} {a} {b} r sf q = Reads-bind m f bs (fields rest) a b r q sf

module _ {ℓ} {B : Type ℓ} where
  pub Reads-guard :
      (rest : List (List ℕ)) {bad : Bool} {k : Reader B} {b : B}
      → bad ≡ false
      → IsSticky k
      → Reads k (fields rest) b
      → Reads (rc_check bad >> k) (fields rest) b
  Reads-guard rest {bad} {k} {b} h sk r =
      Reads-bind (rc_check bad) (λ _. k) [] (fields rest) tt b (Reads-check bad h) r (λ _. sk)

  pub Reads-end : (b : B) → Reads (pure b) (fields []) b
  unfolding fields
  Reads-end b = Reads-pure b

module _ {ℓ} {A : Type ℓ} (read : Reader A) (sticky : IsSticky read) where
  pub IsSticky-each : (n : ℕ) → IsSticky (rc_each read n)
  unfolding rc_each
  IsSticky-each zero = IsSticky-pure []
  IsSticky-each (suc n) =
      IsSticky-bind read _ sticky
        λ x. IsSticky-bind (rc_each read n) _ (IsSticky-each n) (λ xs. IsSticky-pure (x ∷ xs))

  pub Reads-each :
      (bytes : A → List ℕ) (P : A → Type 0)
      → ((x : A) → P x → Reads read (bytes x) x)
      → (n : ℕ) (xs : List A) → length xs ≡ n
      → All P xs
      → Reads (rc_each read n) (each_field bytes xs) xs
  unfolding rc_each each_field
  Reads-each bytes P each zero [] h all = Reads-pure []
  Reads-each bytes P each zero (x ∷ xs) h all = absurd (omega arith)
  Reads-each bytes P each (suc n) [] h all = absurd (omega arith)
  Reads-each bytes P each (suc n) (x ∷ xs) h (px, all) =
      Reads-bind read _ (bytes x) (fields (map bytes xs)) x (x ∷ xs) (each x px)
        (subst (λ bs. Reads (rc_each read n >>= λ ys. pure (x ∷ ys)) bs (x ∷ xs))
          (append-nil (fields (map bytes xs)))
          (Reads-bind (rc_each read n) (λ ys. pure (x ∷ ys)) (fields (map bytes xs)) [] xs (x ∷ xs)
            (Reads-each bytes P each n xs (omega arith) all) (Reads-pure (x ∷ xs))
            (λ ys. IsSticky-pure (x ∷ ys))))
        (λ y. IsSticky-bind (rc_each read n) _ (IsSticky-each n) (λ ys. IsSticky-pure (y ∷ ys)))

abbrev pub IsWord : ℕ → ℕ → Type 0
IsWord w v = v < 2 ^ w

-- The first `n` elements of an array of doubles.
pub Reads-f64_array :
    (n : ℕ) (xs : List ℕ)
    → n ≤ length xs
    → All (IsWord 64) xs
    → Reads (rc_each rc_f64 n) (each_field (octets 8) (take n xs)) (take n xs)
Reads-f64_array n xs h all =
    Reads-each rc_f64 IsSticky-f64 (octets 8) (IsWord 64) Reads-f64 n (take n xs)
      (length-take n xs h) (take-All (IsWord 64) n xs all)

pub IsSticky-f64s : (n : ℕ) → IsSticky (rc_each rc_f64 n)
IsSticky-f64s = IsSticky-each rc_f64 IsSticky-f64

-- The first `n` elements of an array of names of `w` bytes.
pub Reads-names :
    (w n : ℕ) (xs : List (List ℕ))
    → n ≤ length xs
    → All (λ s. length s ≡ w) xs
    → Reads (rc_each (rc_fixed w) n) (each_field (λ s. s) (take n xs)) (take n xs)
Reads-names w n xs h all =
    Reads-each (rc_fixed w) (IsSticky-fixed w) (λ s. s) (λ s. length s ≡ w) (Reads-fixed w) n
      (take n xs) (length-take n xs h) (take-All (λ s. length s ≡ w) n xs all)

pub IsSticky-names : (w n : ℕ) → IsSticky (rc_each (rc_fixed w) n)
IsSticky-names w = IsSticky-each (rc_fixed w) (IsSticky-fixed w)

-- The rules for the body of a decoder.
pub ruleset sticky_rules = (
  IsSticky-bind, IsSticky-pure, IsSticky-check, IsSticky-bytes, IsSticky-fixed, IsSticky-u8,
  IsSticky-u16, IsSticky-u32, IsSticky-u64, IsSticky-i64, IsSticky-i32, IsSticky-f64, IsSticky-f64s,
  IsSticky-names,
)

pub ruleset reads_rules = (
  Reads-field, Reads-guard, Reads-end, Reads-bytes, Reads-fixed, Reads-u8, Reads-u16, Reads-u32,
  Reads-u64, Reads-i64, Reads-i32, Reads-f64, sticky_rules,
)

abbrev begin : List ℕ → RCursor
begin input = record { p = input; len = length input; off = 0; is_ok = true }

begin-At : (input : List ℕ) → length input < 2 ^ 32 → At (begin input) input
begin-At input h = record { flag = refl; rest = refl; ends = omega arith; word = h }

IsBad-decoded {ℓ} :
    {A : Type ℓ} (r : Result (A × RCursor)) → IsBad r → decoded r ≡ err wire_malformed
IsBad-decoded (ok (a, c)) h = rw h
IsBad-decoded (err e) h = ap err h

module _ {ℓ} {A : Type ℓ} (body : Reader A) (bs : List ℕ) (a : A) (r : Reads body bs a) where
  -- A decoder whose body reads `bs` to `a` returns `a` on input that begins with `bs`.
  pub decode_with-Reads :
      (post : List ℕ) → length (bs ++ post) < 2 ^ 32 → decode_with body (bs ++ post) ≡ ok a
  unfolding decode_with
  decode_with-Reads post h = ap decoded (r.full (begin (bs ++ post)) post (begin-At _ h))

  pub decode_with-whole : length bs < 2 ^ 32 → decode_with body bs ≡ ok a
  decode_with-whole h =
      ap (decode_with body) (sym (append-nil bs))
      ∙ decode_with-Reads [] (omega (arith, ap length (append-nil bs)))

  -- On a proper prefix of `bs` it reports malformed input.
  pub decode_with_cut :
      (s : List ℕ) (x : ℕ) (t : List ℕ)
      → length s < 2 ^ 32
      → bs ≡ s ++ (x ∷ t)
      → decode_with body s ≡ err wire_malformed
  unfolding decode_with
  decode_with_cut s x t h e =
      IsBad-decoded (body (begin s)) (r.short (begin s) s x t (begin-At s h) e)
