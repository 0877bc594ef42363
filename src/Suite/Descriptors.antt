-- ===== src/Suite/Descriptors.antt =====
-- benchhandoff/model.py: `_only_keys`, `_string_list`, and the [context] and [workspace] tables.
use Prim.Native.String.{len}
use Prim.Native.Char.{code}
use benchhandoff.Prelude.{
  ℕ, ◌*◌, ◌^◌, ◌-◌, String, Bool, false, not, ◌&&◌, Option, none, some, List, [], ◌∷◌, leb, eqb,
  if◌then◌else◌, Eq, ◌==◌, string_eq, nat_eq, list_eq, contains, all, any, distinct,
}
use benchhandoff.Errors.{
  Failure, Result, ok, err, configuration_error, boundary_error, ◌>>=◌, ◌>>◌, require, refuse,
  convert,
}
use benchhandoff.Text.{has_char, is_sha256}
use benchhandoff.Json.{Json, int, str, arr, obj, pos, Items, nil, cons, Fields, end, field, keys}
use benchhandoff.Portable.{Unicode, normalize_relative_file, windows_path_key}

pub record ContextDescriptor : Type 0 where
  pub path : String
  pub media_type : String
  pub digest : String
  pub size : ℕ

pub record WorkspaceDescriptor : Type 0 where
  pub root : String
  pub manifest : String
  pub digest : String
  pub size : ℕ
  pub policy : String

abbrev pub workspace_policy : String
workspace_policy = "closed-world-primary-stream-v1"

abbrev pub max_context_media_type_bytes : ℕ
max_context_media_type_bytes = 512

abbrev pub max_context_size : ℕ
max_context_size = 2 ^ 63 - 1

abbrev pub max_workspace_manifest_bytes : ℕ
max_workspace_manifest_bytes = 4 * 1024 * 1024

-- value.get(key)
unfoldable pub get : Fields → String → Option Json
get end key = none
get (field k v fs) key = if k == key then some v else get fs key

-- dict.get, for a dict of the loader
abbrev pub dict_get {ℓ κ} : {K : Type ℓ} {V : Type κ} ⦃e : Eq K⦄ → List (K × V) → K → Option V
dict_get [] key = none
dict_get ((k, v) ∷ entries) key = if k == key then some v else dict_get entries key

-- `_only_keys`
unfoldable pub only_keys : Fields → List String → Result (Unit {0})
unfolding keys
only_keys value allowed = require (all (contains allowed) (keys value)) configuration_error

-- `raise ConfigurationError(str(exc)) from exc` for a BoundaryError
abbrev pub as_configuration : Failure → Failure
as_configuration boundary_error = configuration_error
as_configuration e = e

unfoldable pub string_items : Items → Result (List String)
string_items nil = ok []
string_items (cons (str s) rest) = do others ← string_items rest; ok (s ∷ others)
string_items (cons _ rest) = err configuration_error

unfoldable pub as_strings : Option Json → Result (List String)
unfolding string_items
as_strings (some (arr items)) = string_items items
as_strings _ = err configuration_error

-- `_string_list` for texts that are no paths
unfoldable pub string_list : Option Json → Result (List String)
unfolding as_strings has_char
string_list value = do
  items ← as_strings value
  refuse (any (has_char 0) items) configuration_error
  ok items

unfoldable pub as_text : Option Json → Result String
as_text (some (str s)) = ok s
as_text _ = err configuration_error

unfoldable pub as_table : Option Json → Result Fields
as_table (some (obj fs)) = ok fs
as_table _ = err configuration_error

-- An integer from 0 to the given limit, and no bool.
unfoldable pub as_size : Option Json → ℕ → Result ℕ
as_size (some (int (pos n))) limit = do require (leb n limit) configuration_error; ok n
as_size _ limit = err configuration_error

-- ^sha256:[0-9a-f]{64}$
unfoldable pub is_descriptor_digest : String → Bool
unfolding is_sha256
is_descriptor_digest
      (String.◌∷◌ s (
        String.◌∷◌ h
          (String.◌∷◌ a (String.◌∷◌ d (String.◌∷◌ e (String.◌∷◌ f (String.◌∷◌ colon digest))))))) =
    eqb (code s) b's'
    && eqb (code h) b'h'
    && eqb (code a) b'a'
    && eqb (code d) b'2'
    && eqb (code e) b'5'
    && eqb (code f) b'6'
    && eqb (code colon) b':'
    && is_sha256 digest
is_descriptor_digest _ = false

unfoldable pub as_digest : Option Json → Result String
unfolding as_text
as_digest value = do
  digest ← as_text value
  require (is_descriptor_digest digest) configuration_error
  ok digest

module _ (u : Unicode) where
  unfoldable pub normalized_path : String → Result String
  normalized_path value = convert as_configuration (normalize_relative_file u value)

  unfoldable pub normalized_paths : List String → Result (List String)
  unfolding normalized_path
  normalized_paths [] = ok []
  normalized_paths (item ∷ items) = do
    path ← normalized_path item
    paths ← normalized_paths items
    ok (path ∷ paths)

  -- The last loop of `_string_list`, with the dict `aliases`.
  unfoldable pub check_aliases : List (List String × String) → List String → Result (Unit {0})
  check_aliases aliases [] = ok tt
  check_aliases aliases (item ∷ items) = do
    key ← windows_path_key u item
    refuse (elim (dict_get aliases key) [ none ↦ false | some previous ↦ not (previous == item) ])
        configuration_error
    check_aliases ((key, item) ∷ aliases) items

  -- `_string_list` with `paths=True`
  unfoldable pub path_list : Option Json → Result (List String)
  unfolding as_strings normalized_paths check_aliases
  path_list value = do
    items ← as_strings value
    paths ← normalized_paths items
    require (distinct paths) configuration_error
    check_aliases [] paths
    ok paths

  unfoldable pub parse_context : Fields → Result ContextDescriptor
  unfolding get as_table only_keys as_text normalized_path has_char as_digest as_size
  parse_context parsed = do
    raw ← as_table (get parsed "context")
    only_keys raw ("path" ∷ "media_type" ∷ "digest" ∷ "size" ∷ [])
    raw_path ← as_text (get raw "path")
    path ← normalized_path raw_path
    media_type ← as_text (get raw "media_type")
    refuse (media_type == "") configuration_error
    refuse (has_char 0 media_type) configuration_error
    require (leb (len media_type) max_context_media_type_bytes) configuration_error
    digest ← as_digest (get raw "digest")
    size ← as_size (get raw "size") max_context_size
    ok (record { path = path; media_type = media_type; digest = digest; size = size })

  unfoldable pub parse_workspace : Fields → Result WorkspaceDescriptor
  unfolding get as_table only_keys as_text normalized_path as_digest as_size
  parse_workspace parsed = do
    raw ← as_table (get parsed "workspace")
    only_keys raw ("root" ∷ "manifest" ∷ "digest" ∷ "size" ∷ "policy" ∷ [])
    raw_root ← as_text (get raw "root")
    raw_manifest ← as_text (get raw "manifest")
    root ← normalized_path raw_root
    manifest ← normalized_path raw_manifest
    digest ← as_digest (get raw "digest")
    size ← as_size (get raw "size") max_workspace_manifest_bytes
    policy ← as_text (get raw "policy")
    require (policy == workspace_policy) configuration_error
    ok (record { root = root; manifest = manifest; digest = digest; size = size; policy = policy })
