-- ===== src/Gate/Fingerprint.antt =====
-- src/core/gate.c: the digest of a committed result.
use obicall.Common.{ℕ, ◌≡◌, refl, ap, ◌∙◌, List, ◌++◌, take}
use obicall.Cursor.Octets.{octets}
use obicall.Digest.Sha256.{Sha256Ctx, sha256_init, sha256_update, sha256_final, sha256}
use obicall.Digest.Sha256.Incremental.{sha256_init-IsReady, sha256_update-append}
use obicall.FusionResult.{FusionResult}
use obicall.Gate.Publish.{double_bytes, compute_result_digest}

-- An update on top of others that amount to one.
update-update :
    (ctx : Sha256Ctx) (first second : List ℕ)
    → ctx ≡ sha256_update sha256_init first
    → sha256_update ctx second ≡ sha256_update sha256_init (first ++ second)
update-update ctx first second e =
    ap (λ (c : Sha256Ctx). sha256_update c second) e
    ∙ sha256_update-append sha256_init first second sha256_init-IsReady

-- The digest of a result is the SHA-256 of its status, its payload's count and the doubles in use, and its
-- covariance's count and the doubles in use, one behind the other.
pub compute_result_digest_lem :
    (r : FusionResult)
    → compute_result_digest r
      ≡ sha256 (
          octets 4 r.status
          ++ octets 4 r.payload_count
          ++ double_bytes (take r.payload_count r.payload)
          ++ octets 4 r.covariance_count
          ++ double_bytes (take r.covariance_count r.covariance))
unfolding compute_result_digest sha256
compute_result_digest_lem r = ap sha256_final (
    update-update _ _ _
      (update-update _ _ _ (update-update _ _ _ (update-update _ (octets 4 r.status) _ refl))))
