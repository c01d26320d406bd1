-- ===== src/Manifest/State.antt =====
-- include/obicall/manifest.h: one provider's manifest, and texts in arrays of `char`.
use obicall.Common.{ℕ, Bool, true, false, List, [], ◌∷◌, ltb, ◌==◌, if◌then◌else◌}

abbrev pub max_dependencies : ℕ
max_dependencies = 8

abbrev pub max_manifests : ℕ
max_manifests = 64

abbrev pub max_name_len : ℕ
max_name_len = 64

abbrev pub max_path_len : ℕ
max_path_len = 260

abbrev pub max_arch_len : ℕ
max_arch_len = 16

abbrev pub max_config_json_len : ℕ
max_config_json_len = 2048

abbrev pub version_str_len : ℕ
version_str_len = 32

-- An array of `char` is the list of its bytes, but `config_json` is its text alone. A double is its
-- bit pattern. `dependencies` has the entries in use, so `dependency_count` is their number.
pub record Manifest : Type 0 where
  pub schema_version : ℕ
  pub name : List ℕ
  pub version : List ℕ
  pub language : ℕ
  pub abi_version_major : ℕ
  pub abi_version_minor : ℕ
  pub architecture : List ℕ
  pub capability_flags : ℕ
  pub capability_slot : List ℕ
  pub preference_score : ℕ
  pub artifact_path : List ℕ
  pub artifact_sha256 : List ℕ
  pub has_artifact_sha256 : ℕ
  pub config_schema_version : ℕ
  pub config_json : List ℕ
  pub dependencies : List (List ℕ)

-- `strcmp(a, b) > 0` on two texts without their terminators.
unfoldable pub text_gt : List ℕ → List ℕ → Bool
text_gt [] ys = false
text_gt (x ∷ xs) [] = true
text_gt (x ∷ xs) (y ∷ ys) = if x == y then text_gt xs ys else ltb y x
