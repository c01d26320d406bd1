-- ===== src/Status.antt =====
-- include/obicall/status.h: the status codes, and the result of a function that returns one.
use mathlib.Core.Path.{◌≡◌, refl, subst}
use mathlib.Core.Logic.{◌⊎◌, inl, inr}

pub data Status : Type 0 where
  invalid_argument null_pointer out_of_range buffer_too_small not_found already_exists : Status
  unsupported abi_version_mismatch abi_struct_size_mismatch symbol_not_found : Status
  architecture_mismatch artifact_integrity dependency_cycle dependency_missing : Status
  conformance_failed load_failed validation_non_finite validation_dimension : Status
  validation_covariance validation_sequence validation_timing admission_duplicate : Status
  admission_late admission_overflow wire_malformed wire_too_large wire_version_unsupported : Status
  wire_checksum io timeout auth connection_closed gate_not_owner gate_stale_epoch : Status
  gate_duplicate_window gate_expired gate_incompatible gate_not_ready gate_persistence : Status
  process_spawn process_not_running already_running dgt_no_eligible_action : Status
  dgt_invalid_score internal : Status

-- `OBICALL_OK` with the output parameters, or a status that is an error.
pub data Result {ℓ} (A : Type ℓ) : Type ℓ where
  ok : A → Result A
  err : Status → Result A

infixl 5 ◌>>=◌
abbrev pub ◌>>=◌ {ℓ κ} : {A : Type ℓ} {B : Type κ} → Result A → (A → Result B) → Result B
ok a >>= f = f a
err e >>= f = err e

-- What holds of the outputs, if the function succeeds.
abbrev pub Ensures {ℓ κ} : {A : Type ℓ} → (A → Type κ) → Result A → Type κ
Ensures P (ok a) = P a
Ensures P (err e) = Unit {κ}

pub >>=-Ensures {ℓ κ μ ν} :
    {A : Type ℓ} {B : Type κ} (Q : A → Type μ) (P : B → Type ν) (m : Result A) (f : A → Result B)
    → Ensures Q m
    → ((a : A) → Q a → Ensures P (f a))
    → Ensures P (m >>= f)
>>=-Ensures Q P (ok a) f q later = later a q
>>=-Ensures Q P (err e) f q later = tt

pub ok-Ensures {ℓ κ} :
    {A : Type ℓ} (P : A → Type κ) (m : Result A) → ((a : A) → m ≡ ok a → P a) → Ensures P m
ok-Ensures P (ok a) each = each a refl
ok-Ensures P (err e) each = tt

pub Ensures-ok {ℓ κ} :
    {A : Type ℓ} (P : A → Type κ) (m : Result A) (a : A) → Ensures P m → m ≡ ok a → P a
Ensures-ok P m a all e = subst (Ensures P) e all

pub Result-cases {ℓ} :
    {A : Type ℓ} (m : Result A) → ((e : Status) × (m ≡ err e)) ⊎ ((a : A) × (m ≡ ok a))
Result-cases (ok a) = inr (a, refl)
Result-cases (err e) = inl (e, refl)
