-- ===== src/Manifest/Accepted.antt =====
-- src/core/manifest.c: what holds of a manifest that the parser accepts.
use Prim.Native.String.{String}
use obicall.Common.{
  ℕ, zero, suc, ◌+◌, ◌-◌, ◌*◌, ◌≤◌, ◌<◌, ◌≡◌, ◌⊎◌, ap, subst, inl, inr, true, List, [], ◌∷◌, ◌++◌,
  some, arith, padded, length, All, drop, length-append, length-take_le, length-replicate,
  replicate, Bool-cases, Option-cases, All-append,
}
use obicall.Common.Text.{codes, text_of}
use obicall.FusionResult.{digest_len}
use obicall.Json.Scan.{slice}
use obicall.Json.Lookup.{object_find, array_get}
use obicall.Json.Decode.{Decoded, Strtod, Fits, decode_string, decode_string-Fits}
use obicall.Manifest.State.{
  Manifest, max_dependencies, max_name_len, max_path_len, max_arch_len, max_config_json_len,
  version_str_len,
}
use obicall.Manifest.Parse.{
  manifest_schema_version, hex_pair, hex_loop, hex_decode, find_field_str, array_of, parse_language,
  parse_digest, parse_config, dependencies_loop, parse_dependencies, parse_json, element_count,
  span_bytes,
}
use obicall.Status.{ok}

-- An array of `n` bytes with a terminator inside.
abbrev pub IsText : ℕ → List ℕ → Type 0
IsText n cs = (length cs ≡ n) × (length (text_of cs) < n)

-- The optional texts need not have a terminator.
pub record IsManifest (m : Manifest) : Type 0 where
  pub schema : m.schema_version ≡ manifest_schema_version
  pub name_text : IsText max_name_len m.name
  pub version_fits : length m.version ≡ version_str_len
  pub language_known : (m.language ≡ 0) ⊎ (m.language ≡ 1) ⊎ (m.language ≡ 2)
  pub architecture_fits : length m.architecture ≡ max_arch_len
  pub slot_fits : length m.capability_slot ≡ max_name_len
  pub path_text : IsText max_path_len m.artifact_path
  pub digest_fits : length m.artifact_sha256 ≡ digest_len
  pub config_fits : length m.config_json < max_config_json_len
  pub dependencies_fit : length m.dependencies ≤ max_dependencies
  pub dependency_texts : All (IsText max_name_len) m.dependencies

length-padded : (n : ℕ) (xs : List ℕ) → length xs ≤ n → length (padded n 0 xs) ≡ n
length-padded n xs le =
    let zeros : List ℕ = replicate (n - length xs) 0 in
    omega (arith, length-append xs zeros, length-replicate {A = ℕ} (n - length xs) 0)

length-slice : (json : List ℕ) (off n : ℕ) → length (slice json off n) ≤ n
length-slice json off n = length-take_le n (drop off json)

length-text_of : (cs : List ℕ) (k : ℕ) → length (text_of (cs ++ replicate k 0)) ≤ length cs
unfolding text_of
length-text_of [] zero = omega arith
length-text_of [] (suc k) = omega arith
length-text_of (c ∷ cs) k = ground (arith, length-text_of cs k)

-- A text that was decoded fits its array, and is terminated there if it is complete.
array_of-length : (n : ℕ) (d : Decoded) → Fits n d → length (array_of n d) ≡ n
array_of-length n d fits = length-padded n d.written fits.0

array_of-IsText : (n : ℕ) (d : Decoded) → Fits n d → d.complete ≡ true → IsText n (array_of n d)
array_of-IsText n d fits complete =
    let room = fits.1 complete in
    (array_of-length n d fits, omega (arith, length-text_of d.written (n - length d.written)))

find_field_str-Fits : (json key : List ℕ) (n : ℕ) → Fits n (find_field_str json key n)
unfolding find_field_str
find_field_str-Fits json key n = elim (Option-cases (object_find json key)) [
  | inl missing ↦ ground (arith, missing)
  | inr (sp, found) ↦ ground (arith, found, decode_string-Fits (span_bytes json sp) n)
]

parse_language-known :
    (lang : Decoded) (l : ℕ) → parse_language lang ≡ ok l → (l ≡ 0) ⊎ (l ≡ 1) ⊎ (l ≡ 2)
unfolding parse_language
parse_language-known lang l h = ground arith

hex_loop-length : (n : ℕ) (hex bytes : List ℕ) → hex_loop n hex ≡ some bytes → length bytes ≡ n
unfolding hex_loop
hex_loop-length zero hex bytes h = ground arith
hex_loop-length (suc n) [] bytes h = absurd cc
hex_loop-length (suc n) (hi ∷ []) bytes h = absurd cc
hex_loop-length (suc n) (hi ∷ lo ∷ hex) bytes h = elim (Option-cases (hex_pair hi lo)) [
  | inl bad ↦ ground (arith, bad)
  | inr (b, good) ↦ elim (Option-cases (hex_loop n hex)) [
    | inl bad ↦ ground (arith, good, bad)
    | inr (rest, more) ↦ ground (arith, good, more, hex_loop-length n hex rest more)
  ]
]

hex_decode-length : (hex bytes : List ℕ) (n : ℕ) → hex_decode hex n ≡ some bytes → length bytes ≡ n
unfolding hex_decode
hex_decode-length hex bytes n h = hex_loop-length n hex bytes (ground arith)

parse_digest-length :
    (json : List ℕ) (d : List ℕ × ℕ) → parse_digest json ≡ ok d → length d.0 ≡ digest_len
unfolding parse_digest
parse_digest-length json d h = elim (Option-cases (object_find json (codes "artifact_sha256"))) [
  | inl missing ↦ ground (arith, missing)
  | inr (sp, found) ↦
      let hex = (decode_string (span_bytes json sp) (2 * digest_len + 1)).written in
      elim (Option-cases (hex_decode hex digest_len)) [
        | inl bad ↦ ground (arith, found, bad)
        | inr (bytes, good) ↦
            ground (arith, found, good, hex_decode-length hex bytes digest_len good)
      ]
]

parse_config-length :
    (json config : List ℕ) → parse_config json ≡ ok config → length config < max_config_json_len
unfolding parse_config
parse_config-length json config h = elim (Option-cases (object_find json (codes "config"))) [
  | inl missing ↦ ground (arith, missing)
  | inr (sp, found) ↦ ground (arith, found, length-slice json sp.off sp.len)
]

dependencies_loop-IsText :
    (json : List ℕ) (n i : ℕ) (found names : List (List ℕ))
    → dependencies_loop json n i found ≡ ok names
    → All (IsText max_name_len) found
    → (length names ≡ length found + n) × All (IsText max_name_len) names
unfolding dependencies_loop
dependencies_loop-IsText json zero i found names h all =
    let same : found ≡ names = ground arith in
    (omega (arith, ap length same), subst (All (IsText max_name_len)) same all)
dependencies_loop-IsText json (suc n) i found names h all = elim (Option-cases (array_get json i)) [
  | inl missing ↦ ground (arith, missing)
  | inr (elem, got) ↦
      let name = decode_string (span_bytes json elem) max_name_len in
      let complete : name.complete ≡ true = ground (arith, got) in
      let more : List (List ℕ) = found ++ (array_of max_name_len name ∷ []) in
      let rest : dependencies_loop json n (i + 1) more ≡ ok names = ground (arith, got) in
      let text = array_of-IsText max_name_len name (decode_string-Fits _ max_name_len) complete in
      let (count, texts) =
        dependencies_loop-IsText json n (i + 1) more names rest
          (All-append (IsText max_name_len) found _ all (text, tt)) in
      (omega (arith, length-append found (array_of max_name_len name ∷ [])), texts)
]

-- Names that the struct has room for, each terminated.
abbrev Dependencies : List (List ℕ) → Type 0
Dependencies names = (length names ≤ max_dependencies) × All (IsText max_name_len) names

parse_dependencies-Dependencies :
    (json : List ℕ) (names : List (List ℕ))
    → parse_dependencies json ≡ ok names
    → Dependencies names
unfolding parse_dependencies
parse_dependencies-Dependencies json names h =
    elim (Option-cases (object_find json (codes "dependencies"))) [
      | inl missing ↦
          let empty : [] ≡ names = ground (arith, missing) in
          subst Dependencies empty (omega arith, tt)
      | inr (sp, found) ↦ elim (Bool-cases sp.is_string) [
        | inl string ↦
            let empty : [] ≡ names = ground (arith, found, string) in
            subst Dependencies empty (omega arith, tt)
        | inr array ↦
            let elements = span_bytes json sp in
            let few : element_count elements ≤ max_dependencies = ground (arith, found, array) in
            let loop : dependencies_loop elements (element_count elements) 0 [] ≡ ok names =
              ground (arith, found, array) in
            let (count, texts) =
              dependencies_loop-IsText elements (element_count elements) 0 [] names loop tt in
            (omega arith, texts)
      ]
    ]

-- A manifest that the parser accepts has this schema version and a known language, its texts fit their
-- arrays, the name, the path of the artifact and the dependencies' names are terminated there, the
-- digest has its length, and the configuration and the dependencies are within their limits.
pub parse_json-IsManifest :
    (strtod : Strtod) (json : List ℕ) (m : Manifest) → parse_json strtod json ≡ ok m → IsManifest m
unfolding parse_json
parse_json-IsManifest strtod json m h = record {
  schema = ground arith;
  name_text = is_text "name" max_name_len (ground arith) (ground arith);
  version_fits = fits "version" version_str_len (ground arith);
  language_known =
      parse_language-known (find_field_str json (codes "language") 16) _ (ground arith);
  architecture_fits = fits "architecture" max_arch_len (ground arith);
  slot_fits = fits "capability_slot" max_name_len (ground arith);
  path_text = is_text "artifact_path" max_path_len (ground arith) (ground arith);
  digest_fits = parse_digest-length json (m.artifact_sha256, m.has_artifact_sha256) (ground arith);
  config_fits = parse_config-length json m.config_json (ground arith);
  dependencies_fit = listed.0;
  dependency_texts = listed.1;
}
  where
    fits :
        (key : String) (n : ℕ) {cs : List ℕ}
        → array_of n (find_field_str json (codes key) n) ≡ cs
        → length cs ≡ n
    fits key n same =
        subst (λ cs. length cs ≡ n) same
          (array_of-length n _ (find_field_str-Fits json (codes key) n))

    is_text :
        (key : String) (n : ℕ) {cs : List ℕ}
        → (find_field_str json (codes key) n).complete ≡ true
        → array_of n (find_field_str json (codes key) n) ≡ cs
        → IsText n cs
    is_text key n complete same =
        subst (IsText n) same
          (array_of-IsText n _ (find_field_str-Fits json (codes key) n) complete)

    listed : Dependencies m.dependencies
    listed = parse_dependencies-Dependencies json m.dependencies (ground arith)
