-- ===== src/Workspace/Expected.antt =====
-- The tree that `verify_workspace` expects, with the completed outputs in it.
use benchhandoff.Prelude.{
  ◌≡◌, refl, sym, ap, ap₂, ◌∙◌, String, Bool, true, false, Option, none, some, List, [], ◌∷◌, ◌==◌,
  string_eq,
}
use benchhandoff.Errors.{ok, evidence_error, >>=-eq-ok, refuse-eq-ok, ok-injective}
use benchhandoff.Plan.{Identity}
use benchhandoff.Portable.{Unicode}
use benchhandoff.Workspace.{EntryKind, file, canonical_path}
use benchhandoff.Workspace.Binding.{
  Tree, kind_if, kind_at, has_path, put, file_entry, expect_outputs, canonical_paths,
}
use benchhandoff.Workspace.Trees.{kind_at-put}
use benchhandoff.Workspace.Canonical.{canonical_path-IsCanonical}

-- What a dict of outputs holds at a path.
abbrev pub or_kind : Option EntryKind → Option EntryKind → Option EntryKind
or_kind none later = later
or_kind (some kind) later = some kind

abbrev pub output_at : List (String × Identity) → String → Option EntryKind
output_at [] path = none
output_at ((output, identity) ∷ outputs) path =
    or_kind (output_at outputs path) (kind_if (output == path) (file identity) none)

or_kind-kind_if :
    (o : Option EntryKind) (b : Bool) (k : EntryKind) (later : Option EntryKind)
    → or_kind o (kind_if b k later) ≡ or_kind (or_kind o (kind_if b k none)) later
or_kind-kind_if (some j) b k later = refl
or_kind-kind_if none true k later = refl
or_kind-kind_if none false k later = refl

module _ (u : Unicode) where
  -- A tree with the outputs has them, and what it had.
  pub expect_outputs-kind_at :
      (t after : Tree) (outputs : List (String × Identity)) (path : String)
      → expect_outputs u t outputs ≡ ok after
      → kind_at after path ≡ or_kind (output_at outputs path) (kind_at t path)
  unfolding expect_outputs
  expect_outputs-kind_at t after [] path h = ap (λ s. kind_at s path) (sym (ok-injective h))
  expect_outputs-kind_at t after ((output, identity) ∷ outputs) path h =
      let (normal, canonical, h) = >>=-eq-ok (canonical_path u output) _ h in
      let (same, _) = canonical_path-IsCanonical u output normal canonical in
      let (_, h) = refuse-eq-ok (has_path t normal) evidence_error _ h in
      let entry = file_entry normal identity in
      expect_outputs-kind_at (put entry t) after outputs path h
      ∙ ap (or_kind (output_at outputs path)) (kind_at-put entry t path)
      ∙ or_kind-kind_if (output_at outputs path) (normal == path) (file identity) (kind_at t path)
      ∙ ap
          (λ (p : String).
            or_kind (or_kind (output_at outputs path) (kind_if (p == path) (file identity) none))
              (kind_at t path))
          same

  pub canonical_paths-eq-ok :
      (paths normal : List String) → canonical_paths u paths ≡ ok normal → normal ≡ paths
  unfolding canonical_paths
  canonical_paths-eq-ok [] normal h = sym (ok-injective h)
  canonical_paths-eq-ok (path ∷ paths) normal h =
      let (first, canonical, h) = >>=-eq-ok (canonical_path u path) _ h in
      let (rest, others, h) = >>=-eq-ok (canonical_paths u paths) _ h in
      let (same, _) = canonical_path-IsCanonical u path first canonical in
      sym (ok-injective h) ∙ ap₂ ◌∷◌ same (canonical_paths-eq-ok paths rest others)
