-- ===== src/Cursor/Writes.antt =====
-- What a writer puts into the buffer, and that it does so exactly when there is room.
use obicall.Common.{
  All, All-append, ℕ, ◌+◌, ◌^◌, ◌≤◌, ◌<◌, ◌≡◌, refl, ap, ◌∙◌, inl, inr, true, false, List, [], ◌∷◌,
  ◌++◌, append-nil, append_assoc, arith, if◌then◌else◌, length, length-append, take, map, ℤ,
  to_unsigned, leb, Bool-cases, take_all,
}
use obicall.Cursor.Octets.{IsByte, octets}
use obicall.Cursor.Write.{
  WCursor, Writer, wc_bytes, wc_u8, wc_u16, wc_u32, wc_u64, wc_i64, wc_i32, wc_f64, wc_fixed, block,
  wc_each, start, encoded, encode_with,
}
use obicall.Status.{Status, ok, err}

pub record IsOpen (c : WCursor) : Type 0 where
  pub flag : c.is_ok ≡ true
  pub inside : c.off ≤ c.cap
  pub word : c.cap < 2 ^ 32

abbrev pub add : WCursor → List ℕ → WCursor
add c bs = record c { out = c.out ++ bs; off = c.off + length bs }

pub record Writes (m : Writer) (bs : List ℕ) : Type 0 where
  pub fits : (c : WCursor) → IsOpen c → c.off + length bs ≤ c.cap → m c ≡ add c bs
  pub short : (c : WCursor) → IsOpen c → c.cap < c.off + length bs → (m c).is_ok ≡ false
  pub stays : (c : WCursor) → c.is_ok ≡ false → m c ≡ c

-- The bytes of consecutive fields.
unfoldable pub fields : List (List ℕ) → List ℕ
fields [] = []
fields (bs ∷ rest) = bs ++ fields rest

-- The bytes of the elements of an array.
unfoldable pub each_field {ℓ} : {A : Type ℓ} → (A → List ℕ) → List A → List ℕ
unfolding fields
each_field bytes xs = fields (map bytes xs)

-- They are bytes if the fields' are.
pub fields-IsByte : (rest : List (List ℕ)) → All (All IsByte) rest → All IsByte (fields rest)
unfolding fields
fields-IsByte [] all = tt
fields-IsByte (bs ∷ rest) (bytes, all) =
    All-append IsByte bs (fields rest) bytes (fields-IsByte rest all)

pub each_field-IsByte {ℓ} :
    {A : Type ℓ} (bytes : A → List ℕ) (P : A → Type 0) (xs : List A)
    → ((x : A) → P x → All IsByte (bytes x))
    → All P xs
    → All IsByte (each_field bytes xs)
unfolding each_field fields
each_field-IsByte bytes P [] each all = tt
each_field-IsByte bytes P (x ∷ xs) each (px, all) =
    All-append IsByte (bytes x) (fields (map bytes xs)) (each x px)
      (each_field-IsByte bytes P xs each all)

pub Writes-bytes : (bs : List ℕ) → Writes (wc_bytes bs) bs
unfolding wc_bytes
Writes-bytes bs = record {
  fits = λ c o h. ground (arith, o.flag, o.word);
  short = λ c o h. ground (arith, o.flag, o.inside, o.word);
  stays = λ c h. ground arith;
}

pub Writes-end : Writes (block []) (fields [])
unfolding block fields
Writes-end = record {
  fits = λ c o h. ground (arith, append-nil c.out);
  short = λ c o h. absurd (omega (arith, o.inside));
  stays = λ c h. refl;
}

add-IsOpen : (c : WCursor) (bs : List ℕ) → IsOpen c → c.off + length bs ≤ c.cap → IsOpen (add c bs)
add-IsOpen c bs o h = record { flag = o.flag; inside = h; word = o.word }

add-append : (c : WCursor) (bs cs : List ℕ) → add (add c bs) cs ≡ add c (bs ++ cs)
add-append c bs cs = ground (arith, append_assoc c.out bs cs, length-append bs cs)

pub Writes-then :
    (m : Writer) (ms : List Writer) (bs : List ℕ) (rest : List (List ℕ))
    → Writes m bs
    → Writes (block ms) (fields rest)
    → Writes (block (m ∷ ms)) (fields (bs ∷ rest))
unfolding block fields
Writes-then m ms bs rest w v = record {
  fits = λ c o h.
      let head : c.off + length bs ≤ c.cap = omega (arith, length-append bs (fields rest)) in
      ap (block ms) (w.fits c o head)
      ∙ v.fits (add c bs) (add-IsOpen c bs o head) (omega (arith, length-append bs (fields rest)))
      ∙ add-append c bs (fields rest);
  short = λ c o h. elim (Bool-cases (leb (c.off + length bs) c.cap)) [
    | inl e ↦
        let head : c.off + length bs ≤ c.cap = ground (arith, e) in
        ap (λ (d : WCursor). (block ms d).is_ok) (w.fits c o head)
        ∙ v.short (add c bs) (add-IsOpen c bs o head)
            (omega (arith, length-append bs (fields rest)))
    | inr e ↦
        let closed : (m c).is_ok ≡ false = w.short c o (ground (arith, e)) in
        ap (λ (d : WCursor). d.is_ok) (v.stays (m c) closed) ∙ closed
  ];
  stays = λ c h. ap (block ms) (w.stays c h) ∙ v.stays c h;
}

pub Writes-u8 : (v : ℕ) → Writes (wc_u8 v) (octets 1 v)
unfolding wc_u8
Writes-u8 v = Writes-bytes (octets 1 v)

pub Writes-u16 : (v : ℕ) → Writes (wc_u16 v) (octets 2 v)
unfolding wc_u16
Writes-u16 v = Writes-bytes (octets 2 v)

pub Writes-u32 : (v : ℕ) → Writes (wc_u32 v) (octets 4 v)
unfolding wc_u32
Writes-u32 v = Writes-bytes (octets 4 v)

pub Writes-u64 : (v : ℕ) → Writes (wc_u64 v) (octets 8 v)
unfolding wc_u64
Writes-u64 v = Writes-bytes (octets 8 v)

pub Writes-i64 : (v : ℤ) → Writes (wc_i64 v) (octets 8 (to_unsigned 63 v))
unfolding wc_i64
Writes-i64 v = Writes-u64 (to_unsigned 63 v)

pub Writes-i32 : (v : ℤ) → Writes (wc_i32 v) (octets 4 (to_unsigned 31 v))
unfolding wc_i32
Writes-i32 v = Writes-u32 (to_unsigned 31 v)

pub Writes-f64 : (v : ℕ) → Writes (wc_f64 v) (octets 8 v)
unfolding wc_f64
Writes-f64 v = Writes-u64 v

pub Writes-fixed : (s : List ℕ) → Writes (wc_fixed s) s
unfolding wc_fixed
Writes-fixed s = Writes-bytes s

Writes-all {ℓ} :
    {A : Type ℓ} (write : A → Writer) (bytes : A → List ℕ) (xs : List A)
    → ((x : A) → Writes (write x) (bytes x))
    → Writes (block (map write xs)) (each_field bytes xs)
unfolding each_field
Writes-all write bytes [] each = Writes-end
Writes-all write bytes (x ∷ xs) each =
    Writes-then (write x) (map write xs) (bytes x) (map bytes xs) (each x)
      (Writes-all write bytes xs each)

pub Writes-each {ℓ} :
    {A : Type ℓ} (write : A → Writer) (bytes : A → List ℕ) (n : ℕ) (xs : List A)
    → ((x : A) → Writes (write x) (bytes x))
    → Writes (wc_each write n xs) (each_field bytes (take n xs))
unfolding wc_each
Writes-each write bytes n xs each = Writes-all write bytes (take n xs) each

pub Writes-f64s :
    (n : ℕ) (xs : List ℕ) → Writes (wc_each wc_f64 n xs) (each_field (octets 8) (take n xs))
Writes-f64s n xs = Writes-each wc_f64 (octets 8) n xs Writes-f64

-- An array of fixed-size names.
pub Writes-names :
    (n : ℕ) (xs : List (List ℕ)) → Writes (wc_each wc_fixed n xs) (each_field (λ s. s) (take n xs))
Writes-names n xs = Writes-each wc_fixed (λ s. s) n xs Writes-fixed

-- The rules for the body of an encoder.
pub ruleset writes_rules = (
  Writes-end, Writes-then, Writes-bytes, Writes-u8, Writes-u16, Writes-u32, Writes-u64, Writes-i64,
  Writes-i32, Writes-f64, Writes-f64s, Writes-names, Writes-fixed,
)

-- An encoder's result for a body that writes `bs`: these bytes if they fit, else the status.
pub encode_with-Writes :
    (failed : Status) (out_cap : ℕ) (body : List Writer) (bs : List ℕ)
    → Writes (block body) bs
    → out_cap < 2 ^ 32
    → encode_with failed out_cap body ≡ (if leb (length bs) out_cap then ok bs else err failed)
unfolding encode_with encoded
encode_with-Writes failed out_cap body bs w h = elim (Bool-cases (leb (length bs) out_cap)) [
  | inl e ↦
      let room_for : length bs ≤ out_cap = ground (arith, e) in
      rw (e, w.fits (start out_cap) o (omega arith))
        (ap ok (ap (λ (n : ℕ). take n bs) (omega arith) ∙ take_all bs))
  | inr e ↦ ground (arith, e, w.short (start out_cap) o (ground (arith, e)))
]
  where
    o : IsOpen (start out_cap)
    o = record { flag = refl; inside = omega arith; word = h }

-- So what an encoder returned is what its body writes.
pub encode_with-ok :
    (failed : Status) (out_cap : ℕ) (body : List Writer) (layout bs : List ℕ)
    → Writes (block body) layout
    → out_cap < 2 ^ 32
    → encode_with failed out_cap body ≡ ok bs
    → (bs ≡ layout) × (length bs ≤ out_cap)
encode_with-ok failed out_cap body layout bs w h done =
    ground (arith, encode_with-Writes failed out_cap body layout w h)
