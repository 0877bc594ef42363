-- ===== src/Tests/Paths.antt =====
-- The path theorems at one path.
use benchhandoff.Prelude.{◌↔◌, ◌≡◌, refl, String, false, List, All}
use benchhandoff.Errors.{ok}
use benchhandoff.Text.{join, split, starts_with_char}
use benchhandoff.Portable.{
  normalize_relative_file, posix_str, component_keys, windows_component_key,
}
use benchhandoff.Portable.Laws.{IsPortable, IsProper, normalize_iff, normalize_components}
use benchhandoff.Tests.Data.{ascii}

accepted : normalize_relative_file ascii "a/b" ≡ ok "a/b"
unfolding normalize_relative_file component_keys windows_component_key posix_str
accepted = refl

normalize_iff_example :
    (normalize_relative_file ascii "a/b" ≡ ok "a/b")
    ↔ ((keys : List String) × (◌≡◌ {A = String} "a/b" "a/b") × IsPortable ascii "a/b" keys)
normalize_iff_example = normalize_iff ascii "a/b" "a/b"

normalize_components_example :
    (join "/" (split b'/' "a/b") ≡ "a/b")
    × All IsProper (split b'/' "a/b")
    × (starts_with_char b'/' "a/b" ≡ false)
normalize_components_example = normalize_components ascii "a/b" "a/b" accepted
