-- ===== src/Manifest/Load.antt =====
-- src/core/manifest.c: `obicall_manifest_load_dir` on a POSIX system. A directory is the list of what
-- `readdir` returns, in its order.
use obicall.Common.{
  ℕ, ◌+◌, ◌-◌, ◌≤◌, ◌≡◌, inl, inr, Bool, ◌&&◌, List, [], ◌∷◌, ◌++◌, Option, none, some, arith, ltb,
  leb, if◌then◌else◌, if_either, same_bytes, length, length-append, drop, All, All-append,
  Bool-cases,
}
use obicall.Common.Text.{codes}
use obicall.Json.Decode.{Strtod}
use obicall.Manifest.State.{Manifest, max_manifests, max_path_len}
use obicall.Manifest.Parse.{parse_json}
use obicall.Manifest.Accepted.{IsManifest, parse_json-IsManifest}
use obicall.Status.{
  Result, ok, err, ◌>>=◌, Ensures, >>=-Ensures, ok-Ensures, Ensures-ok, io, buffer_too_small,
  out_of_range,
}

-- A name, and the bytes of the file if it can be opened.
pub record DirEntry : Type 0 where
  pub d_name : List ℕ
  pub content : Option (List ℕ)

abbrev pub max_file_len : ℕ
max_file_len = 8192

unfoldable pub load_bytes : Strtod → List ℕ → List Manifest → Result (List Manifest)
load_bytes strtod bytes set =
    if ltb max_file_len (length bytes)
    then err buffer_too_small
    else if leb max_manifests (length set)
    then err out_of_range
    else parse_json strtod bytes >>= λ m. ok (set ++ (m ∷ []))

-- The set after, if the file is loaded.
unfoldable pub load_one_manifest_file :
    Strtod → Option (List ℕ) → List Manifest → Result (List Manifest)
load_one_manifest_file strtod none set = err io
load_one_manifest_file strtod (some bytes) set = load_bytes strtod bytes set

unfoldable pub has_suffix : List ℕ → List ℕ → Bool
has_suffix s suffix =
    leb (length suffix) (length s) && same_bytes (drop (length s - length suffix) s) suffix

-- The entry is a manifest's, and its path fits the array that holds it.
unfoldable pub is_loaded : List ℕ → DirEntry → Bool
is_loaded dir_path ent =
    has_suffix ent.d_name (codes ".manifest.json")
    && ltb (length dir_path + 1 + length ent.d_name) (max_path_len + 256)

unfoldable pub load_entries :
    Strtod → List ℕ → List DirEntry → List Manifest → Result (List Manifest)
load_entries strtod dir_path [] set = ok set
load_entries strtod dir_path (ent ∷ entries) set =
    let skipped = load_entries strtod dir_path entries set in
    let loaded =
      load_one_manifest_file strtod ent.content set >>= load_entries strtod dir_path entries in
    if is_loaded dir_path ent then loaded else skipped

-- A directory that cannot be opened is as an empty one.
unfoldable pub load_dir : Strtod → List ℕ → Option (List DirEntry) → Result (List Manifest)
load_dir strtod dir_path none = ok []
load_dir strtod dir_path (some entries) = load_entries strtod dir_path entries []

-- As many manifests as the set has room for, each as the parser accepts it.
abbrev pub IsManifestSet : List Manifest → Type 0
IsManifestSet set = (length set ≤ max_manifests) × All IsManifest set

load_bytes-IsManifestSet :
    (strtod : Strtod) (bytes : List ℕ) (set : List Manifest)
    → IsManifestSet set
    → Ensures IsManifestSet (load_bytes strtod bytes set)
unfolding load_bytes
load_bytes-IsManifestSet strtod bytes set (few, all) =
    elim (Bool-cases (ltb max_file_len (length bytes))) [
      | inl long ↦ rw long tt
      | inr short ↦ rw short (elim (Bool-cases (leb max_manifests (length set))) [
        | inl full ↦ rw full tt
        | inr room ↦ rw room (
            >>=-Ensures IsManifest IsManifestSet (parse_json strtod bytes)
              (λ m. ok (set ++ (m ∷ [])))
              (ok-Ensures IsManifest _ (parse_json-IsManifest strtod bytes))
              (λ m v. (
                ground (arith, length-append set (m ∷ []), room),
                All-append IsManifest set _ all (v, tt),
              )))
      ])
    ]

load_one_manifest_file-IsManifestSet :
    (strtod : Strtod) (content : Option (List ℕ)) (set : List Manifest)
    → IsManifestSet set
    → Ensures IsManifestSet (load_one_manifest_file strtod content set)
unfolding load_one_manifest_file
load_one_manifest_file-IsManifestSet strtod none set v = tt
load_one_manifest_file-IsManifestSet strtod (some bytes) set v =
    load_bytes-IsManifestSet strtod bytes set v

load_entries-IsManifestSet :
    (strtod : Strtod) (dir_path : List ℕ) (entries : List DirEntry) (set : List Manifest)
    → IsManifestSet set
    → Ensures IsManifestSet (load_entries strtod dir_path entries set)
unfolding load_entries
load_entries-IsManifestSet strtod dir_path [] set v = v
load_entries-IsManifestSet strtod dir_path (ent ∷ entries) set v =
    if_either (Ensures IsManifestSet) (is_loaded dir_path ent)
      (>>=-Ensures IsManifestSet IsManifestSet (load_one_manifest_file strtod ent.content set)
        (load_entries strtod dir_path entries)
        (load_one_manifest_file-IsManifestSet strtod ent.content set v)
        (λ loaded w. load_entries-IsManifestSet strtod dir_path entries loaded w))
      (load_entries-IsManifestSet strtod dir_path entries set v)

load_dir-Ensures :
    (strtod : Strtod) (dir_path : List ℕ) (entries : Option (List DirEntry))
    → Ensures IsManifestSet (load_dir strtod dir_path entries)
unfolding load_dir
load_dir-Ensures strtod dir_path none = (omega arith, tt)
load_dir-Ensures strtod dir_path (some entries) =
    load_entries-IsManifestSet strtod dir_path entries [] (omega arith, tt)

-- A set that is loaded from a directory has at most as many manifests as there is room for. Each of them
-- has this schema version and a language that is C, Python or unspecified, its texts fit their arrays, its name, its
-- path and the names that it depends on are terminated there, and its lists are within their limits.
pub load_dir-IsManifestSet :
    (strtod : Strtod) (dir_path : List ℕ) (entries : Option (List DirEntry)) (set : List Manifest)
    → load_dir strtod dir_path entries ≡ ok set
    → IsManifestSet set
load_dir-IsManifestSet strtod dir_path entries set h =
    Ensures-ok IsManifestSet _ set (load_dir-Ensures strtod dir_path entries) h
