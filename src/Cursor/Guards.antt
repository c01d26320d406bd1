-- ===== src/Cursor/Guards.antt =====
-- Early returns in a decoder's body that have another status than malformed input.
use obicall.Common.{
  ℕ, ◌≡◌, refl, sym, ap, subst, ◌∙◌, Bool, true, false, not, ◌||◌, List, if◌then◌else◌,
}
use obicall.Cursor.Read.{RCursor, Reader, after, ◌>>=◌, ◌>>◌, rc_check, rc_fail_if}
use obicall.Cursor.Reads.{Reads, IsSticky, IsBad}
use obicall.Status.{Status, ok, err, wire_malformed}

module _ {ℓ} {B : Type ℓ} where
  -- Whatever follows, the check of `ok` returns for a failed cursor.
  pub IsSticky-check_then : (bad : Bool) (k : Reader B) → IsSticky (rc_check bad >> k)
  unfolding rc_check ◌>>=◌
  IsSticky-check_then bad k = record {
    stays = λ c h.
        subst
          (λ b. IsBad (after (if not b || bad then err wire_malformed else ok (tt, c)) (λ _. k)))
          (sym h) refl;
  }

  check_step :
      (bad : Bool) (k : Reader B) (c : RCursor)
      → bad ≡ false
      → c.is_ok ≡ true
      → (rc_check bad >> k) c ≡ k c
  unfolding rc_check ◌>>=◌
  check_step bad k c h o =
      ap (λ b. after (if not c.is_ok || b then err wire_malformed else ok (tt, c)) (λ _. k)) h
      ∙ ap (λ b. after (if not b || false then err wire_malformed else ok (tt, c)) (λ _. k)) o

  fail_step :
      (bad : Bool) (failed : Status) (k : Reader B) (c : RCursor)
      → bad ≡ false
      → (rc_fail_if bad failed >> k) c ≡ k c
  unfolding rc_fail_if ◌>>=◌
  fail_step bad failed k c h = ap (λ b. after (if b then err failed else ok (tt, c)) (λ _. k)) h

  -- A check that passes reads nothing.
  pub Reads-check_then :
      (bad : Bool) (k : Reader B) (bs : List ℕ) (b : B)
      → bad ≡ false
      → Reads k bs b
      → Reads (rc_check bad >> k) bs b
  Reads-check_then bad k bs b h r = record {
    full = λ c post at. check_step bad k c h at.flag ∙ r.full c post at;
    short = λ c s x t at e. subst IsBad (sym (check_step bad k c h at.flag)) (r.short c s x t at e);
  }

  pub Reads-fail_if :
      (bad : Bool) (failed : Status) (k : Reader B) (bs : List ℕ) (b : B)
      → bad ≡ false
      → Reads k bs b
      → Reads (rc_fail_if bad failed >> k) bs b
  Reads-fail_if bad failed k bs b h r = record {
    full = λ c post at. fail_step bad failed k c h ∙ r.full c post at;
    short = λ c s x t at e. subst IsBad (sym (fail_step bad failed k c h)) (r.short c s x t at e);
  }
