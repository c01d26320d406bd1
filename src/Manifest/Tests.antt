-- ===== src/Manifest/Tests.antt =====
-- Runs on small sets of manifests, and on the text of one manifest.
use Prim.Native.String.{String}
use obicall.Common.{
  ℕ, ◌≡◌, refl, List, [], ◌∷◌, ◌++◌, none, some, arith, replicate, padded, same_bytes,
}
use obicall.Common.Text.{codes, text_of, str_eq}
use obicall.Json.Decode.{Strtod, unescape, decode_loop, decode_string, parse_number}
use obicall.Json.Lookup.{
  span_from_value, read_value, read_member, behind_comma, object_loop, object_find, array_open,
  count_loop, array_count, get_loop, array_get,
}
use obicall.Json.Scan.{
  is_ws, is_digit, skip_while, spaces, digits, string_loop, skip_string, nest_loop, scan_number,
  scan_at, scan_value,
}
use obicall.Manifest.Load.{
  DirEntry, IsManifestSet, load_bytes, load_one_manifest_file, has_suffix, is_loaded, load_entries,
  load_dir, load_dir-IsManifestSet,
}
use obicall.Manifest.Parse.{
  find_field_str, find_field_num, to_u32, parse_language, parse_digest, flags_loop, parse_flags,
  parse_config, dependencies_loop, parse_dependencies, parse_json,
}
use obicall.Manifest.Rank.{
  is_eligible, candidates_from, should_shift, shift_loop, sort_loop, forwards, rank_alternatives,
}
use obicall.Manifest.Rank.Sorted.{alternative_at, rank_alternatives-Ordered}
use obicall.Manifest.Rank.Order.{Ordered}
use obicall.Manifest.Resolve.Plan.{Resolved, resolve-Resolved}
use obicall.Manifest.Resolve.Release.{contains, Distinct}
use obicall.Manifest.Resolve.Search.{find_by_name, mark, mark_names, close_loop}
use obicall.Manifest.Resolve.Sort.{
  rows_of, ready_from, depends_on, release_row, release, order_loop, plan_of, resolve,
}
use obicall.Manifest.State.{Manifest, text_gt, max_name_len, max_path_len}
use obicall.Observation.Doubles.{f64_lt, f64_eq}
use obicall.Status.{ok, err, dependency_missing, dependency_cycle}

-- A manifest with these dependencies and this score.
abbrev manifest : String → List (List ℕ) → ℕ → Manifest
manifest name dependencies score = record {
  schema_version = 1;
  name = codes name;
  version = [];
  language = 1;
  abi_version_major = 1;
  abi_version_minor = 0;
  architecture = [];
  capability_flags = 0;
  capability_slot = codes "range";
  preference_score = score;
  artifact_path = codes "a";
  artifact_sha256 = replicate 32 0;
  has_artifact_sha256 = 0;
  config_schema_version = 0;
  config_json = codes "{}";
  dependencies = dependencies;
}

-- "fuse" depends on "lidar" and "imu", and "lidar" on "imu"; "loop" depends on itself, "twice" on "imu" twice and
-- "lost" on what is not there.
abbrev items : List Manifest
items =
    manifest "fuse" (codes "lidar" ∷ codes "imu" ∷ []) 0x3FF0000000000000
    ∷ manifest "lidar" (codes "imu" ∷ []) 0x4000000000000000
    ∷ manifest "imu" [] 0x3FF0000000000000
    ∷ manifest "loop" (codes "loop" ∷ []) 0x4010000000000000
    ∷ manifest "twice" (codes "imu" ∷ codes "imu" ∷ []) 0x4010000000000000
    ∷ manifest "lost" (codes "gps" ∷ []) 0x4010000000000000
    ∷ []

-- A dependency that is listed twice is counted twice and released once: it is taken for a cycle.
plans :
    (resolve items (codes "fuse" ∷ []) ≡ ok (2 ∷ 1 ∷ 0 ∷ []))
    × (resolve items (codes "loop" ∷ []) ≡ err dependency_cycle)
    × (resolve items (codes "twice" ∷ []) ≡ err dependency_cycle)
    × (resolve items (codes "lost" ∷ []) ≡ err dependency_missing)
unfolding same_bytes text_of str_eq find_by_name mark mark_names close_loop rows_of ready_from
    depends_on release_row release order_loop plan_of resolve
plans = (refl, refl, refl, refl)

resolve-Resolved_example : Resolved items (codes "fuse" ∷ []) (resolve items (codes "fuse" ∷ []))
resolve-Resolved_example = resolve-Resolved items (codes "fuse" ∷ [])

-- The lowest score is first, and of two with the same score the one with the lower name.
ranked : rank_alternatives items (codes "range") none 8 ≡ 0 ∷ 2 ∷ 1 ∷ []
unfolding same_bytes text_of str_eq find_by_name mark mark_names close_loop rows_of ready_from
    depends_on release_row release order_loop plan_of resolve is_eligible candidates_from
    should_shift shift_loop sort_loop forwards rank_alternatives text_gt f64_lt f64_eq
ranked = refl

rank_alternatives-Ordered_example :
    Ordered items (rank_alternatives items (codes "range") none 8)
    × Distinct (rank_alternatives items (codes "range") none 8)
    × ((k : ℕ)
        → contains (rank_alternatives items (codes "range") none 8) k
          ≡ alternative_at items (codes "range") none items k)
rank_alternatives-Ordered_example =
    rank_alternatives-Ordered items (codes "range") none 8
      (refl, (refl, (refl, (refl, (refl, (refl, tt)))))) (omega arith)

-- A `strtod` for a text of which every number is 1.
abbrev one : Strtod
one text = some 0x3FF0000000000000

abbrev quoted : String → List ℕ
quoted text = (0x22 ∷ codes text) ++ (0x22 ∷ [])

-- {"schema_version":1,"name":"imu","artifact_path":"a"}
abbrev text : List ℕ
text =
    codes "{"
    ++ quoted "schema_version"
    ++ codes ":1,"
    ++ quoted "name"
    ++ codes ":"
    ++ quoted "imu"
    ++ codes ","
    ++ quoted "artifact_path"
    ++ codes ":"
    ++ quoted "a"
    ++ codes "}"

abbrev entries : List DirEntry
entries =
    record { d_name = codes "README"; content = none }
    ∷ record { d_name = codes "imu.manifest.json"; content = some text }
    ∷ []

abbrev loaded : List Manifest
loaded =
    record {
      schema_version = 1;
      name = padded max_name_len 0 (codes "imu");
      version = replicate 32 0;
      language = 0;
      abi_version_major = 0;
      abi_version_minor = 0;
      architecture = replicate 16 0;
      capability_flags = 0;
      capability_slot = replicate 64 0;
      preference_score = 0;
      artifact_path = padded max_path_len 0 (codes "a");
      artifact_sha256 = replicate 32 0;
      has_artifact_sha256 = 0;
      config_schema_version = 0;
      config_json = codes "{}";
      dependencies = [];
    }
    ∷ []

entries-loaded : load_dir one (codes "d") (some entries) ≡ ok loaded
unfolding is_ws is_digit skip_while spaces digits string_loop skip_string nest_loop scan_number
    scan_at scan_value same_bytes span_from_value read_value read_member behind_comma object_loop
    object_find array_open count_loop array_count get_loop array_get unescape decode_loop
    decode_string parse_number text_of str_eq find_field_str find_field_num to_u32 parse_language
    parse_digest flags_loop parse_flags parse_config dependencies_loop parse_dependencies parse_json
    load_bytes load_one_manifest_file has_suffix is_loaded load_entries load_dir
entries-loaded = refl

load_dir-IsManifestSet_example : IsManifestSet loaded
load_dir-IsManifestSet_example =
    load_dir-IsManifestSet one (codes "d") (some entries) loaded entries-loaded
