-- ===== src/Digest/Sha256/Incremental.antt =====
-- src/core/digest.c: the chunks that `obicall_sha256_update` is called with do not matter.
use obicall.Common.{
  ℕ, zero, suc, ◌+◌, ◌-◌, ◌%◌, ◌^◌, ◌≤◌, ◌<◌, ◌≡◌, refl, sym, ap, subst, ◌∙◌, List, [], ◌∷◌, ◌++◌,
  append_assoc, append-nil, arith, ltb, if◌then◌else◌, length, length-append, take, drop,
  length-take, length-drop, take-drop,
}
use obicall.Digest.Sha256.{Sha256Ctx, compress_full, update_loop, sha256_update, sha256_init}

-- The buffer has room for a byte.
abbrev pub IsReady : Sha256Ctx → Type 0
IsReady ctx = length ctx.buffer < 64

-- One byte into the buffer.
abbrev push : Sha256Ctx → ℕ → Sha256Ctx
push ctx b = compress_full (record ctx { buffer = ctx.buffer ++ (b ∷ []) })

abbrev absorb : Sha256Ctx → List ℕ → Sha256Ctx
absorb ctx [] = ctx
absorb ctx (b ∷ bs) = absorb (push ctx b) bs

absorb-append :
    (bs cs : List ℕ) (ctx : Sha256Ctx) → absorb ctx (bs ++ cs) ≡ absorb (absorb ctx bs) cs
absorb-append [] cs ctx = refl
absorb-append (b ∷ bs) cs ctx = absorb-append bs cs (push ctx b)

compress_full-IsReady : (ctx : Sha256Ctx) → length ctx.buffer ≤ 64 → IsReady (compress_full ctx)
unfolding compress_full
compress_full-IsReady ctx h = ground arith

compress_full_part : (ctx : Sha256Ctx) → IsReady ctx → compress_full ctx ≡ ctx
unfolding compress_full
compress_full_part ctx h = ground arith

push-IsReady : (ctx : Sha256Ctx) (b : ℕ) → IsReady ctx → IsReady (push ctx b)
push-IsReady ctx b h = compress_full-IsReady _ (omega (arith, length-append ctx.buffer (b ∷ [])))

absorb-IsReady : (bs : List ℕ) (ctx : Sha256Ctx) → IsReady ctx → IsReady (absorb ctx bs)
absorb-IsReady [] ctx h = h
absorb-IsReady (b ∷ bs) ctx h = absorb-IsReady bs (push ctx b) (push-IsReady ctx b h)

-- Bytes that do not overfill the buffer go into it at once.
absorb_chunk :
    (bs : List ℕ) (ctx : Sha256Ctx)
    → IsReady ctx
    → length ctx.buffer + length bs ≤ 64
    → absorb ctx bs ≡ compress_full (record ctx { buffer = ctx.buffer ++ bs })
absorb_chunk [] ctx ready h = sym (
    ap (λ (z : List ℕ). compress_full (record ctx { buffer = z })) (append-nil ctx.buffer)
    ∙ compress_full_part ctx ready)
absorb_chunk (b ∷ []) ctx ready h = refl
absorb_chunk (b ∷ c ∷ bs) ctx ready h =
    let one : Sha256Ctx = record ctx { buffer = ctx.buffer ++ (b ∷ []) } in
    let one_length : length one.buffer ≡ length ctx.buffer + 1 =
      length-append ctx.buffer (b ∷ []) in
    ap (λ (x : Sha256Ctx). absorb x (c ∷ bs)) (compress_full_part one (omega (arith, one_length)))
    ∙ absorb_chunk (c ∷ bs) one (omega (arith, one_length)) (omega (arith, one_length))
    ∙ ap (λ (z : List ℕ). compress_full (record ctx { buffer = z }))
        (append_assoc ctx.buffer (b ∷ []) (c ∷ bs))

-- One round of the loop, on `n` bytes.
absorb-take :
    (fuel : ℕ) (ctx : Sha256Ctx) (input : List ℕ) (n : ℕ)
    → IsReady ctx
    → length ctx.buffer + n ≤ 64
    → n ≤ length input
    → ((c : Sha256Ctx) → IsReady c → update_loop fuel c (drop n input) ≡ absorb c (drop n input))
    → update_loop fuel
        (compress_full (record ctx { buffer = ctx.buffer ++ take n input }))
        (drop n input)
      ≡ absorb ctx input
absorb-take fuel ctx input n ready room enough rest =
    let chunk = absorb_chunk (take n input) ctx ready (omega (arith, length-take n input enough)) in
    ap (λ (c : Sha256Ctx). update_loop fuel c (drop n input)) (sym chunk)
    ∙ rest (absorb ctx (take n input)) (absorb-IsReady (take n input) ctx ready)
    ∙ sym (absorb-append (take n input) (drop n input) ctx)
    ∙ ap (absorb ctx) (take-drop n input)

-- The loop of an update takes the input byte by byte.
update_loop-absorb :
    (fuel : ℕ) (ctx : Sha256Ctx) (input : List ℕ)
    → IsReady ctx
    → length input ≤ fuel
    → update_loop fuel ctx input ≡ absorb ctx input
unfolding update_loop
update_loop-absorb zero ctx [] ready h = refl
update_loop-absorb zero ctx (d ∷ input) ready h = absurd (omega arith)
update_loop-absorb (suc fuel) ctx [] ready h = refl
update_loop-absorb (suc fuel) ctx (d ∷ input) ready h =
    let room = 64 - length ctx.buffer in
    let n = if ltb (length (d ∷ input)) room then length (d ∷ input) else room in
    let moves : 1 ≤ n = ground arith in
    let inside : n ≤ length (d ∷ input) = ground arith in
    let fits : length ctx.buffer + n ≤ 64 = ground arith in
    absorb-take fuel ctx (d ∷ input) n ready fits inside (λ c r.
      update_loop-absorb fuel c (drop n (d ∷ input)) r (omega (arith, length-drop n (d ∷ input))))

abbrev with_total : ℕ → Sha256Ctx → Sha256Ctx
with_total n ctx = record ctx { total_len = n }

compress_full-with_total :
    (n : ℕ) (ctx : Sha256Ctx) → compress_full (with_total n ctx) ≡ with_total n (compress_full ctx)
unfolding compress_full
compress_full-with_total n ctx = ground arith

absorb-with_total :
    (bs : List ℕ) (n : ℕ) (ctx : Sha256Ctx)
    → absorb (with_total n ctx) bs ≡ with_total n (absorb ctx bs)
absorb-with_total [] n ctx = refl
absorb-with_total (b ∷ bs) n ctx =
    ap (λ (c : Sha256Ctx). absorb c bs)
      (compress_full-with_total n (record ctx { buffer = ctx.buffer ++ (b ∷ []) }))
    ∙ absorb-with_total bs n (push ctx b)

sha256_update-absorb :
    (ctx : Sha256Ctx) (input : List ℕ)
    → IsReady ctx
    → sha256_update ctx input
      ≡ with_total ((ctx.total_len + length input) % 2 ^ 64) (absorb ctx input)
unfolding sha256_update
sha256_update-absorb ctx input ready =
    update_loop-absorb (length input) (with_total ((ctx.total_len + length input) % 2 ^ 64) ctx)
      input ready (omega arith)
    ∙ absorb-with_total input _ ctx

-- An update leaves room in the buffer.
pub sha256_update-IsReady :
    (ctx : Sha256Ctx) (input : List ℕ) → IsReady ctx → IsReady (sha256_update ctx input)
sha256_update-IsReady ctx input ready =
    subst IsReady (sym (sha256_update-absorb ctx input ready)) (absorb-IsReady input ctx ready)

pub sha256_init-IsReady : IsReady sha256_init
unfolding sha256_init
sha256_init-IsReady = omega arith

-- Hashing some bytes and then others is hashing both at once, for a context whose buffer is not full.
pub sha256_update-append :
    (ctx : Sha256Ctx) (first second : List ℕ)
    → IsReady ctx
    → sha256_update (sha256_update ctx first) second ≡ sha256_update ctx (first ++ second)
sha256_update-append ctx first second ready =
    let n = (ctx.total_len + length first) % 2 ^ 64 in
    let middle = absorb ctx first in
    let middle_ready = absorb-IsReady first ctx ready in
    let total : (n + length second) % 2 ^ 64 ≡ (ctx.total_len + length (first ++ second)) % 2 ^ 64 =
      omega (arith, length-append first second) in
    ap (λ (c : Sha256Ctx). sha256_update c second) (sha256_update-absorb ctx first ready)
    ∙ sha256_update-absorb (with_total n middle) second middle_ready
    ∙ ap (with_total ((n + length second) % 2 ^ 64)) (absorb-with_total second n middle)
    ∙ ap (λ (c : Sha256Ctx). with_total ((n + length second) % 2 ^ 64) c)
        (sym (absorb-append first second ctx))
    ∙ ap (λ (t : ℕ). with_total t (absorb ctx (first ++ second))) total
    ∙ sym (sha256_update-absorb ctx (first ++ second) ready)
