-- ===== src/Workspace/Claims.antt =====
-- The paths of the entries gathered so far, and their Windows aliases.
use benchhandoff.Prelude.{
  ◌≡◌, sym, ap, ◌∙◌, ◌⊎◌, inl, inr, String, true, false, ◌||◌, Option, none, some, List, [], ◌∷◌,
  ◌++◌, ◌==◌, string_eq, list_eq, contains, list_beq_iff, arith, Bool-cases,
}
use mathlib.Core.Option.{some-injective}
use benchhandoff.Errors.{ok, evidence_error, >>=-eq-ok, refuse-eq-ok, ok-injective}
use benchhandoff.Portable.{Unicode, windows_path_key}
use benchhandoff.Workspace.{Entry, paths_of, Aliases, alias_of, is_other, claim_alias}
use benchhandoff.Workspace.Canonical.{IsCanonical}

pub contains-snoc :
    (es : List Entry) (e : Entry) (path : String)
    → contains (paths_of (es ++ e ∷ [])) path ≡ (contains (paths_of es) path || path == e.path)
contains-snoc [] e path = ground arith
contains-snoc (f ∷ es) e path = ground (arith, contains-snoc es e path)

is_other-some :
    (o : Option String) (path p : String) → is_other o path ≡ false → o ≡ some p → p ≡ path
is_other-some none path p h at = cc
is_other-some (some previous) path p h at =
    some-injective p previous (sym at) ∙ (string_eq.same_iff previous path).0 (ground arith)

alias_of-added :
    (u : Unicode) (aliases : Aliases) (added path : String) (key k : List String)
    → is_other (alias_of aliases key) added ≡ false
    → windows_path_key u added ≡ ok key
    → windows_path_key u path ≡ ok k
    → (path ≡ added) ⊎ (alias_of aliases k ≡ some path)
    → alias_of ((key, added) ∷ aliases) k ≡ some path
alias_of-added u aliases added path key k free keyed_added keyed_path found =
    elim (Bool-cases (key == k)) [
      | inl same ↦ rw same (elim found [
        | inl new ↦ ap some (sym new)
        | inr old ↦
            let at : alias_of aliases key ≡ some path =
              ap (alias_of aliases) ((list_eq.same_iff key k).0 same) ∙ old in
            ap some (sym (is_other-some (alias_of aliases key) added path free at))
      ])
      | inr other ↦ rw other (elim found [
        | inl new ↦
            let equal : key ≡ k =
              ok-injective (sym keyed_added ∙ ap (windows_path_key u) (sym new) ∙ keyed_path) in
            absurd (ground (arith, list_beq_iff key k))
        | inr old ↦ old
      ])
    ]

module _ (u : Unicode) where
  -- Every path is canonical, and is the one on record for its alias.
  pub record IsClaimed (entries : List Entry) (aliases : Aliases) : Type 0 where
    pub canonical : (path : String) → contains (paths_of entries) path ≡ true → IsCanonical u path
    pub alias :
        (path : String) (key : List String)
        → contains (paths_of entries) path ≡ true
        → windows_path_key u path ≡ ok key
        → alias_of aliases key ≡ some path

  pub nothing-IsClaimed : IsClaimed [] []
  nothing-IsClaimed = record {
    canonical = λ path there. absurd (ground (arith, there));
    alias = λ path key there keyed. absurd (ground (arith, there));
  }

  -- Windows tells any two paths apart.
  pub IsClaimed-same :
      (entries : List Entry) (aliases : Aliases)
      → IsClaimed entries aliases
      → (a b : String) (key : List String) → contains (paths_of entries) a ≡ true
      → contains (paths_of entries) b ≡ true
      → windows_path_key u a ≡ ok key
      → windows_path_key u b ≡ ok key
      → a ≡ b
  IsClaimed-same entries aliases claimed a b key there_a there_b key_a key_b =
      some-injective a b
        (sym (claimed.alias a key there_a key_a) ∙ claimed.alias b key there_b key_b)

  -- One more path.
  pub claim_alias-IsClaimed :
      (entries : List Entry) (aliases after : Aliases) (e : Entry)
      → IsClaimed entries aliases
      → IsCanonical u e.path
      → claim_alias u aliases e.path ≡ ok after
      → IsClaimed (entries ++ e ∷ []) after
  unfolding claim_alias
  claim_alias-IsClaimed entries aliases after e claimed canonical h =
      let (key, keyed, h) = >>=-eq-ok (windows_path_key u e.path) _ h in
      let (free, h) = refuse-eq-ok (is_other (alias_of aliases key) e.path) evidence_error _ h in
      let same : ((key, e.path) ∷ aliases) ≡ after = ok-injective h in
      record {
        canonical = λ path there. elim (Bool-cases (path == e.path)) [
          | inl new ↦ rw (sym ((string_eq.same_iff path e.path).0 new)) at canonical
          | inr old ↦ claimed.canonical path (ground (arith, contains-snoc entries e path))
        ];
        alias = λ path k there keyed_k.
            ap (λ a. alias_of a k) (sym same)
            ∙ alias_of-added u aliases e.path path key k free keyed keyed_k
                (elim (Bool-cases (path == e.path)) [
                  | inl new ↦ inl ((string_eq.same_iff path e.path).0 new)
                  | inr old ↦
                      inr (
                        claimed.alias path k (ground (arith, contains-snoc entries e path)) keyed_k)
                ]);
      }
