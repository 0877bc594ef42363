-- ===== src/Workspace/Canonical.antt =====
-- The paths of a workspace: what `_canonical_path` accepts, and which paths may stand together.
use benchhandoff.Prelude.{
  ◌≡◌, sym, ap, ◌∙◌, String, true, List, leb, length, ◌==◌, string_eq, list_eq,
}
use benchhandoff.Errors.{ok, evidence_error, >>=-eq-ok, require-eq-ok, ok-injective}
use benchhandoff.Text.{split}
use benchhandoff.Portable.{Unicode, normalize_relative_file}
use benchhandoff.Portable.Laws.{IsPortable, normalize-IsPortable}
use benchhandoff.Workspace.{max_workspace_depth, canonical_path}

module _ (u : Unicode) where
  -- A portable path in NFC that is not too deep.
  pub record IsCanonical (path : String) : Type 0 where
    pub keys : List String
    pub portable : IsPortable u path keys
    pub composed : u.nfc path ≡ path
    pub shallow : leb (length (split b'/' path)) max_workspace_depth ≡ true

  pub canonical_path-IsCanonical :
      (value path : String) → canonical_path u value ≡ ok path → (path ≡ value) × IsCanonical path
  unfolding canonical_path
  canonical_path-IsCanonical value path h =
      let (normal, normalized, h) = >>=-eq-ok (normalize_relative_file u value) _ h in
      let (keys, same, portable) = normalize-IsPortable u value normal normalized in
      let (composed, h) = require-eq-ok (u.nfc normal == normal) evidence_error _ h in
      let (shallow, h) =
        require-eq-ok (leb (length (split b'/' normal)) max_workspace_depth) evidence_error _ h in
      let returned : normal ≡ path = ok-injective h in
      (
        sym returned ∙ same,
        record {
          keys = keys;
          portable = rw (sym same ∙ returned) at portable;
          composed =
              ap u.nfc (sym returned)
              ∙ (string_eq.same_iff (u.nfc normal) normal).0 composed
              ∙ returned;
          shallow = rw returned at shallow;
        },
      )
