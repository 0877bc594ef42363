-- ===== src/Workspace/Agrees.antt =====
-- The comparison of two trees, against a description of one path at a time.
use benchhandoff.Prelude.{
  ◌≡◌, ◌↔◌, refl, ap, ◌∙◌, inl, inr, String, Bool, true, false, not, Option, none, some, List, [],
  ◌∷◌, contains, is_nil, all, arith, Option-cases, distinct, &&-parts, string_eq,
}
use benchhandoff.Errors.{ok, evidence_error, require-eq-ok, require_last}
use benchhandoff.Workspace.{EntryKind, directory, file, kinds_match, paths_of}
use benchhandoff.Workspace.Binding.{
  Tree, kind_at, is_there, has_path, is_file, missing_paths, extra_paths, entries_agree,
  compare_trees,
}
use benchhandoff.Workspace.Trees.{
  kinds_match_refl, kinds_match_sound, all-paths_where, paths_where-all, entries_agree-kind_at,
  kind_at-entries_agree,
}

-- What one path may hold, from what is expected there and whether it is volatile.
abbrev pub agrees_at : Option EntryKind → Option EntryKind → Bool → Bool
agrees_at (some expected) (some actual) volatile = kinds_match actual expected
agrees_at (some expected) none volatile = false
agrees_at none none volatile = true
agrees_at none (some (file i)) volatile = volatile
agrees_at none (some directory) volatile = false

abbrev pub Agrees : Tree → Tree → List String → Type 0
Agrees expected actual volatile =
    (path : String)
    → agrees_at (kind_at expected path) (kind_at actual path) (contains volatile path) ≡ true

agrees_at-some :
    (k : EntryKind) (actual : Option EntryKind) (v : Bool)
    → agrees_at (some k) actual v ≡ true
    → actual ≡ some k
agrees_at-some k none v h = cc
agrees_at-some k (some j) v h = ap some (kinds_match_sound j k h)

some-agrees_at :
    (k : EntryKind) (actual : Option EntryKind) (v : Bool)
    → actual ≡ some k
    → agrees_at (some k) actual v ≡ true
some-agrees_at k actual v h = rw h (kinds_match_refl k)

agrees_at-none :
    (actual : Option EntryKind) (v : Bool)
    → is_there actual ≡ true
    → agrees_at none actual v ≡ true
    → (v ≡ true) × (is_file actual ≡ true)
agrees_at-none none v there h = cc
agrees_at-none (some (file i)) v there h = (h, refl)
agrees_at-none (some directory) v there h = cc

none-agrees_at :
    (actual : Option EntryKind) (v : Bool)
    → (is_there actual ≡ true → (v ≡ true) × (is_file actual ≡ true))
    → agrees_at none actual v ≡ true
none-agrees_at none v h = refl
none-agrees_at (some (file i)) v h = (h refl).0
none-agrees_at (some directory) v h = absurd (ground ((h refl).1, arith))

is_nil-all : (paths : List String) → is_nil paths ≡ all (λ path. false) paths
is_nil-all [] = refl
is_nil-all (path ∷ paths) = refl

module _ (expected actual : Tree) (volatile : List String) where
  abbrev unexpected : String → Bool
  unexpected path = not (has_path expected path)

  pub compare_trees-Agrees :
      compare_trees expected actual volatile ≡ ok tt → Agrees expected actual volatile
  unfolding compare_trees extra_paths
  compare_trees-Agrees h path =
      let (topology, h) = require-eq-ok _ evidence_error _ h in
      let (_, volatile_only) =
        &&-parts (is_nil (missing_paths expected actual))
          (all (contains volatile) (extra_paths expected actual)) topology in
      let (same, h) = require-eq-ok (entries_agree expected actual) evidence_error _ h in
      let files = require_last _ evidence_error h in
      elim (Option-cases (kind_at expected path)) [
        | inr (k, at) ↦ rw at (
            some-agrees_at k (kind_at actual path) (contains volatile path)
              (entries_agree-kind_at expected actual path k same at))
        | inl at ↦
            let extra : unexpected path ≡ true = rw at refl in
            rw at (
              none-agrees_at (kind_at actual path) (contains volatile path) (λ there. (
                all-paths_where (contains volatile) unexpected actual path volatile_only there
                    extra,
                all-paths_where (λ p. is_file (kind_at actual p)) unexpected actual path files there
                    extra,
              )))
      ]

  Agrees-extra :
      Agrees expected actual volatile
      → (path : String) → has_path actual path ≡ true
      → unexpected path ≡ true
      → (contains volatile path ≡ true) × (is_file (kind_at actual path) ≡ true)
  Agrees-extra agrees path there extra = elim (Option-cases (kind_at expected path)) [
    | inr (k, at) ↦ absurd (ground (arith, extra, ap is_there at))
    | inl at ↦
        agrees_at-none (kind_at actual path) (contains volatile path) there (rw at at (agrees path))
  ]

  none_absent :
      Agrees expected actual volatile
      → (path : String) → has_path expected path ≡ true
      → ¬ (not (has_path actual path) ≡ true)
  none_absent agrees path there absent = elim (Option-cases (kind_at expected path)) [
    | inl at ↦ ground (arith, there, ap is_there at)
    | inr (k, at) ↦
        let here =
          agrees_at-some k (kind_at actual path) (contains volatile path)
            (rw at at (agrees path)) in
        ground (arith, absent, ap is_there here)
  ]

  pub Agrees-compare_trees :
      distinct (paths_of expected) ≡ true
      → Agrees expected actual volatile
      → compare_trees expected actual volatile ≡ ok tt
  unfolding compare_trees extra_paths missing_paths
  Agrees-compare_trees d agrees =
      let none_missing =
        is_nil-all (missing_paths expected actual)
        ∙ paths_where-all (λ path. false) (λ path. not (has_path actual path)) expected
            (λ path there absent. absurd (none_absent agrees path there absent)) in
      let volatile_only =
        paths_where-all (contains volatile) unexpected actual
          (λ path there extra. (Agrees-extra agrees path there extra).0) in
      let same = kind_at-entries_agree expected actual d (λ path k at.
        agrees_at-some k (kind_at actual path) (contains volatile path) (rw at at (agrees path))) in
      let files =
        paths_where-all (λ p. is_file (kind_at actual p)) unexpected actual
          (λ path there extra. (Agrees-extra agrees path there extra).1) in
      rw (none_missing, volatile_only, same, files) refl

  -- The comparison of `verify_workspace` passes exactly when every path agrees: what is expected there
  -- is there, of the same kind and content, and any other entry is a volatile file.
  pub compare_trees_iff :
      distinct (paths_of expected) ≡ true
      → (compare_trees expected actual volatile ≡ ok tt) ↔ Agrees expected actual volatile
  compare_trees_iff d = (compare_trees-Agrees, Agrees-compare_trees d)
