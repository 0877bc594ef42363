-- ===== src/Portable.antt =====
-- benchhandoff/storage.py: portable relative paths and their Windows alias keys. Unicode
-- normalization and case folding stay parameters.
pub mod Laws
use Prim.Native.String.{len}
use benchhandoff.Prelude.{
  ℕ, ◌≡◌, String, Bool, true, false, not, ◌&&◌, ◌||◌, List, [], ◌∷◌, map, ltb, leb, eqb,
  if◌then◌else◌, contains, any, Eq, ◌==◌, string_eq, nat_eq, is_nil,
}
use benchhandoff.Errors.{Result, ok, err, boundary_error, ◌>>=◌, ◌>>◌, require, refuse}
use benchhandoff.Text.{
  ◌<>◌, any_char, has_char, ends_with, starts_with_char, split, join, first_part,
}

-- unicodedata.normalize("NFC", s) and s.casefold()
pub record Unicode : Type 0 where
  pub nfc : String → String
  pub casefold : String → String

abbrev pub max_windows_component_bytes : ℕ
max_windows_component_bytes = 240

abbrev pub max_portable_path_bytes : ℕ
max_portable_path_bytes = 1024

-- One of <>:"/\|?* or a control character.
abbrev pub is_windows_invalid : ℕ → Bool
is_windows_invalid c =
    contains (b'<' ∷ b'>' ∷ b':' ∷ 0x22 ∷ b'/' ∷ 0x5c ∷ b'|' ∷ b'?' ∷ b'*' ∷ []) c || ltb c 32

unfoldable pub windows_reserved_names : List String
windows_reserved_names =
    "con" ∷ "prn" ∷ "aux" ∷ "nul" ∷ "conin$" ∷ "conout$" ∷ "clock$" ∷ "com1" ∷ "com2" ∷ "com3"
    ∷ "com4" ∷ "com5" ∷ "com6" ∷ "com7" ∷ "com8" ∷ "com9" ∷ "lpt1" ∷ "lpt2" ∷ "lpt3" ∷ "lpt4"
    ∷ "lpt5" ∷ "lpt6" ∷ "lpt7" ∷ "lpt8" ∷ "lpt9" ∷ "com¹" ∷ "com²" ∷ "com³" ∷ "lpt¹" ∷ "lpt²"
    ∷ "lpt³" ∷ []

-- str(PurePosixPath(value)): empty and "." components vanish, the root stays, and nothing is ".".
abbrev pub posix_parts : List String → List String
posix_parts [] = []
posix_parts (p ∷ ps) = if p == "" || p == "." then posix_parts ps else p ∷ posix_parts ps

abbrev pub posix_join : List String → String
posix_join [] = "."
posix_join (p ∷ ps) = join "/" (p ∷ ps)

unfoldable pub posix_str : String → String
unfolding split join
posix_str value =
    let parts = posix_parts (split b'/' value) in
    if starts_with_char b'/' value then "/" <> join "/" parts else posix_join parts

module _ (u : Unicode) where
  unfoldable pub windows_component_key : String → Result String
  unfolding windows_reserved_names any_char ends_with first_part
  windows_component_key value = do
    refuse (value == "") boundary_error
    refuse (any_char is_windows_invalid value) boundary_error
    refuse (ends_with (λ c. eqb c 0x20 || eqb c b'.') value) boundary_error
    require (leb (len value) max_windows_component_bytes) boundary_error
    let normalized = u.nfc value
    let device_stem = u.casefold (first_part b'.' normalized)
    refuse (contains windows_reserved_names device_stem) boundary_error
    ok (u.casefold normalized)

  -- `for part in parts: windows_component_key(part)`
  unfoldable pub component_keys : List String → Result (List String)
  component_keys [] = ok []
  component_keys (part ∷ parts) = do
    key ← windows_component_key part
    keys ← component_keys parts
    ok (key ∷ keys)

  unfoldable pub normalize_relative_file : String → Result String
  unfolding has_char split
  normalize_relative_file value = do
    refuse (value == "") boundary_error
    refuse (has_char 0 value) boundary_error
    require (leb (len value) max_portable_path_bytes) boundary_error
    refuse (has_char 0x5c value) boundary_error
    refuse (has_char b':' value) boundary_error
    let raw_parts = split b'/' value
    refuse (any (λ part. part == "" || part == "." || part == "..") raw_parts) boundary_error
    _ ← component_keys raw_parts
    refuse (starts_with_char b'/' value || not (posix_str value == value)) boundary_error
    ok value

  unfoldable pub windows_path_key : String → Result (List String)
  unfolding split
  windows_path_key value = do
    normalized ← normalize_relative_file value
    component_keys (split b'/' normalized)
