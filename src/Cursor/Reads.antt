-- ===== src/Cursor/Reads.antt =====
-- What a reader makes of the bytes that encode a value, of a part of them that breaks off, and of
-- a cursor that has failed.
use obicall.Common.{
  ℕ, ◌+◌, ◌^◌, ◌<◌, ◌≡◌, refl, sym, ap, subst, ◌∙◌, inl, inr, Bool, true, false, List, [], ◌∷◌,
  ◌++◌, append_assoc, arith, ltb, length, length-append, take, drop, take-append_self,
  drop-append_self, drop-drop, split_cases,
}
use obicall.Cursor.Read.{RCursor, Reader, after, ◌>>=◌, pure, left, rc_bytes, rc_check}
use obicall.Status.{wire_malformed, Result, ok, err}

-- The cursor stands before the bytes `s`, the last of its input.
pub record At (c : RCursor) (s : List ℕ) : Type 0 where
  pub flag : c.is_ok ≡ true
  pub rest : drop c.off c.p ≡ s
  pub ends : c.len ≡ c.off + length s
  pub word : c.len < 2 ^ 32

abbrev pub IsBad {ℓ} : {A : Type ℓ} → Result (A × RCursor) → Type 0
IsBad (ok (a, c)) = c.is_ok ≡ false
IsBad (err e) = e ≡ wire_malformed

abbrev pub skip : RCursor → ℕ → RCursor
skip c n = record c { off = c.off + n }

module _ {ℓ} {A : Type ℓ} where
  -- A reader that is handed a failed cursor hands a failure on.
  pub record IsSticky (m : Reader A) : Type ℓ where
    pub stays : (c : RCursor) → c.is_ok ≡ false → IsBad (m c)

  pub record Reads (m : Reader A) (bs : List ℕ) (a : A) : Type ℓ where
    pub full : (c : RCursor) (post : List ℕ) → At c (bs ++ post) → m c ≡ ok (a, skip c (length bs))
    pub short :
        (c : RCursor) (s : List ℕ) (x : ℕ) (t : List ℕ) → At c s → bs ≡ s ++ (x ∷ t) → IsBad (m c)

skip-At : (c : RCursor) (bs post : List ℕ) → At c (bs ++ post) → At (skip c (length bs)) post
skip-At c bs post a = record {
  flag = a.flag;
  rest = drop-drop c.off (length bs) c.p ∙ ap (drop (length bs)) a.rest ∙ drop-append_self bs post;
  ends = omega (arith, a.ends, length-append bs post);
  word = a.word;
}

skip-append :
    (c : RCursor) (bs cs : List ℕ)
    → skip (skip c (length bs)) (length cs) ≡ skip c (length (bs ++ cs))
skip-append c bs cs = ground (arith, length-append bs cs)

nil_ne : (s : List ℕ) (x : ℕ) (t : List ℕ) → [] ≡ s ++ (x ∷ t) → ⊥
nil_ne [] x t e = cc
nil_ne (y ∷ s) x t e = cc

module _ {ℓ κ} {A : Type ℓ} {B : Type κ} where
  after-IsBad :
      (r : Result (A × RCursor)) (f : A → Reader B)
      → ((a : A) → IsSticky (f a))
      → IsBad r
      → IsBad (after r f)
  after-IsBad (ok (a, c)) f sf h = (sf a).stays c h
  after-IsBad (err e) f sf h = h

  pub IsSticky-bind :
      (m : Reader A) (f : A → Reader B)
      → IsSticky m
      → ((a : A) → IsSticky (f a))
      → IsSticky (m >>= f)
  unfolding ◌>>=◌
  IsSticky-bind m f sm sf = record { stays = λ c h. after-IsBad (m c) f sf (sm.stays c h) }

  pub Reads-bind :
      (m : Reader A) (f : A → Reader B) (bs cs : List ℕ) (a : A) (b : B)
      → Reads m bs a
      → Reads (f a) cs b
      → ((x : A) → IsSticky (f x))
      → Reads (m >>= f) (bs ++ cs) b
  unfolding ◌>>=◌
  Reads-bind m f bs cs a b r q sf = record {
    full = λ c post at.
        let here : At c (bs ++ (cs ++ post)) = rw append_assoc at at in
        ap (λ (x : Result (A × RCursor)). after x f) (r.full c (cs ++ post) here)
        ∙ q.full (skip c (length bs)) post (skip-At c bs (cs ++ post) here)
        ∙ ap (λ (d : RCursor). ok (b, d)) (skip-append c bs cs);
    short = λ c s x t at e. elim (split_cases bs cs s t x e) [
      | inl (u, within) ↦ after-IsBad (m c) f sf (r.short c s x u at within)
      | inr (u, past, back) ↦
          let here : At c (bs ++ u) = rw past at at in
          subst (λ (y : Result (A × RCursor)). IsBad (after y f)) (sym (r.full c u here))
            (q.short (skip c (length bs)) u x t (skip-At c bs u here) back)
    ];
  }

module _ {ℓ} {A : Type ℓ} where
  pub IsSticky-pure : (a : A) → IsSticky (pure a)
  unfolding pure
  IsSticky-pure a = record { stays = λ c h. h }

  pub Reads-pure : (a : A) → Reads (pure a) [] a
  unfolding pure
  Reads-pure a = record {
    full = λ c post at. ap (λ (d : RCursor). ok (a, d)) (ground arith);
    short = λ c s x t at e. absurd (nil_ne s x t e);
  }

pub IsSticky-check : (bad : Bool) → IsSticky (rc_check bad)
unfolding rc_check
IsSticky-check bad = record { stays = λ c h. rw h refl }

pub Reads-check : (bad : Bool) → bad ≡ false → Reads (rc_check bad) [] tt
unfolding rc_check
Reads-check bad h = record {
  full = λ c post at. ground (arith, at.flag);
  short = λ c s x t at e. absurd (nil_ne s x t e);
}

pub IsSticky-bytes : (n : ℕ) → IsSticky (rc_bytes n)
unfolding rc_bytes
IsSticky-bytes n = record { stays = λ c h. rw h refl }

pub Reads-bytes : (n : ℕ) (bs : List ℕ) → length bs ≡ n → Reads (rc_bytes n) bs bs
unfolding rc_bytes
Reads-bytes n bs h = record {
  full = λ c post at.
      let size : c.len ≡ c.off + (n + length post) =
        omega (arith, at.ends, h, length-append bs post) in
      let enough : ltb (left c) n ≡ false = ground (arith, at.word, size) in
      let taken : take n (drop c.off c.p) ≡ bs =
        ap (take n) at.rest
        ∙ ap (λ (k : ℕ). take k (bs ++ post)) (sym h)
        ∙ take-append_self bs post in
      ground (arith, at.flag, enough, taken, h, size, at.word);
  short = λ c s x t at e.
      let few : length s < n = omega (arith, h, ap length e, length-append s (x ∷ t)) in
      let not_enough : ltb (left c) n ≡ true = ground (arith, at.word, at.ends, few) in
      rw (at.flag, not_enough) refl;
}
