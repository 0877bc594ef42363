-- ===== src/Workspace/Observed.antt =====
-- What an observation of a workspace is.
use benchhandoff.Prelude.{
  ℕ, zero, suc, ◌≤◌, ◌≡◌, refl, sym, ap, ◌∙◌, String, true, Option, List, [], ◌∷◌, leb, length,
  string_eq, contains, arith, le→leb,
}
use benchhandoff.Errors.{ok, evidence_error, require, ok-injective}
use benchhandoff.Codec.{Codec}
use benchhandoff.RunState.{Summary}
use benchhandoff.Portable.{Unicode, windows_path_key}
use benchhandoff.Exec.{resume-eq-ok}
use benchhandoff.Workspace.{
  max_workspace_entries, max_workspace_total_bytes, paths_of, total_bytes, sort_entries,
  tree_summary, Aliases, canonical_path, claim_alias,
}
use benchhandoff.Workspace.Disk.{FileSystem, ObjectKey, object_key, within, full_path}
use benchhandoff.Workspace.Scan.{
  Scan, Observation, scan_child, scan_children, list_directory, scan_directory, scan_stack,
  scan_workspace_once, unscanned, max_rounds,
}
use benchhandoff.Workspace.Observe.{checked_workspace_root, same_observation, observe_workspace}
use benchhandoff.Workspace.Canonical.{IsCanonical, canonical_path-IsCanonical}
use benchhandoff.Workspace.Claims.{
  IsClaimed, nothing-IsClaimed, IsClaimed-same, claim_alias-IsClaimed,
}
use benchhandoff.Workspace.Gathered.{total_bytes-snoc}
use benchhandoff.Workspace.Sorted.{
  is_sorted, sort_entries-is_sorted, contains-sort_entries, total_bytes-sort_entries,
  length-sort_entries,
}
use benchhandoff.Workspace.Steps.{IsAdded, scan_child-IsAdded}
use benchhandoff.Workspace.Rounds.{list_directory-bounded, scan_children-grows}

module _ (f : FileSystem) (c : Codec) (u : Unicode) where
  -- What the loop keeps true.
  pub record IsFound (s : Scan) : Type 0 where
    pub claimed : IsClaimed u s.entries s.aliases
    pub total_is : s.total ≡ total_bytes s.entries
    pub bounded : leb s.total max_workspace_total_bytes ≡ true

  unscanned-IsFound : (key : ObjectKey) → IsFound (unscanned key)
  unscanned-IsFound key = record { claimed = nothing-IsClaimed u; total_is = refl; bounded = refl }

  module _ (root : String) (device : ℕ) where
    IsAdded-IsFound :
        (s t : Scan) (aliases : Aliases) (value relative : String)
        → IsFound s
        → canonical_path u value ≡ ok relative
        → claim_alias u s.aliases relative ≡ ok aliases
        → IsAdded f c u root device s aliases relative t
        → IsFound t
    IsAdded-IsFound s t aliases value relative found canonical claim added =
        let claim = ap (claim_alias u s.aliases) added.path_is ∙ claim in
        let is_canonical : IsCanonical u added.entry.path =
          (canonical_path-IsCanonical u value added.entry.path
            (canonical ∙ ap ok (sym added.path_is))).1 in
        record {
          claimed =
              rw (added.entries_are, added.aliases_are)
                (claim_alias-IsClaimed u s.entries s.aliases aliases added.entry found.claimed
                  is_canonical claim);
          total_is = omega (
            arith,
            added.total_is,
            found.total_is,
            total_bytes-snoc s.entries added.entry,
            ap total_bytes added.entries_are,
          );
          bounded = added.bounded found.bounded;
        }

    scan_children-IsFound :
        (place : Option String) (s : Scan) (names : List String) (world : f.World) {t : Scan}
        → IsFound s
        → (scan_children f c u root device place s names world).0 ≡ ok t
        → IsFound t
    unfolding scan_children
    scan_children-IsFound place s [] world found h = rw (ok-injective h) at found
    scan_children-IsFound place s (name ∷ names) world found h =
        let (next, child, h) = resume-eq-ok _ (scan_child f c u root device place s name world) h in
        let (relative, aliases, canonical, claim, added) =
          scan_child-IsAdded f c u root device place s name world child in
        scan_children-IsFound place next names _
          (IsAdded-IsFound s next aliases (within place name) relative found canonical claim added)
          h

    scan_directory-IsFound :
        (place : Option String) (key : ObjectKey) (s : Scan) (world : f.World) {t : Scan}
        → IsFound s
        → length s.entries ≤ max_workspace_entries
        → (scan_directory f c u root device place key s world).0 ≡ ok t
        → IsFound t × (length t.entries ≤ max_workspace_entries)
    unfolding scan_directory
    scan_directory-IsFound place key s world found few h =
        let (names, listed, h) =
          resume-eq-ok _ (list_directory f c u root device s (full_path root place) key world) h in
        let fits =
          list_directory-bounded f c u root device s (full_path root place) key world listed in
        let (entries, _) = scan_children-grows f c u root device place s names _ h in
        (scan_children-IsFound place s names _ found h, omega (arith, fits, entries, few))

    scan_stack-IsFound :
        (rounds : ℕ) (s : Scan) (stack : List (Option String × ObjectKey)) (world : f.World)
        {t : Scan}
        → IsFound s
        → length s.entries ≤ max_workspace_entries
        → (scan_stack f c u root device rounds s stack world).0 ≡ ok t
        → IsFound t × (length t.entries ≤ max_workspace_entries)
    unfolding scan_stack
    scan_stack-IsFound zero s [] world found few h = (
      rw (ok-injective h) at found,
      omega (arith, few, ap (λ (k : Scan). length k.entries) (ok-injective h)),
    )
    scan_stack-IsFound (suc rounds) s [] world found few h = (
      rw (ok-injective h) at found,
      omega (arith, few, ap (λ (k : Scan). length k.entries) (ok-injective h)),
    )
    scan_stack-IsFound zero s (next ∷ stack) world found few h = cc
    scan_stack-IsFound (suc rounds) s ((place, key) ∷ stack) world found few h =
        let popped : Scan = record s { stack = stack } in
        let start : IsFound popped = record {
          claimed = found.claimed;
          total_is = found.total_is;
          bounded = found.bounded;
        } in
        let (next, scanned, h) =
          resume-eq-ok (λ (t : Scan). scan_stack f c u root device rounds t t.stack)
            (scan_directory f c u root device place key popped world) h in
        let (found, few) = scan_directory-IsFound place key popped world start few scanned in
        scan_stack-IsFound rounds next next.stack _ found few h

  -- A tree in its canonical order and within its bounds, with its summary.
  pub record IsObserved (o : Observation) : Type 0 where
    pub canonical : (path : String) → contains (paths_of o.entries) path ≡ true → IsCanonical u path
    pub apart :
        (a b : String) (key : List String)
        → contains (paths_of o.entries) a ≡ true
        → contains (paths_of o.entries) b ≡ true
        → windows_path_key u a ≡ ok key
        → windows_path_key u b ≡ ok key
        → a ≡ b
    pub ordered : is_sorted o.entries ≡ true
    pub total_bounded : leb (total_bytes o.entries) max_workspace_total_bytes ≡ true
    pub count_bounded : leb (length o.entries) max_workspace_entries ≡ true
    pub summary_is : tree_summary c o.entries ≡ ok o.summary

  found-IsObserved :
      (s : Scan) (summary : Summary)
      → IsFound s
      → length s.entries ≤ max_workspace_entries
      → tree_summary c (sort_entries s.entries) ≡ ok summary
      → IsObserved (record { entries = sort_entries s.entries; summary = summary })
  found-IsObserved s summary found few summed = record {
    canonical = λ path there.
        found.claimed.canonical path (sym (contains-sort_entries s.entries path) ∙ there);
    apart = λ a b key there_a there_b.
        IsClaimed-same u s.entries s.aliases found.claimed a b key
          (sym (contains-sort_entries s.entries a) ∙ there_a)
          (sym (contains-sort_entries s.entries b) ∙ there_b);
    ordered = sort_entries-is_sorted s.entries;
    total_bounded =
        ap (λ n. leb n max_workspace_total_bytes)
          (total_bytes-sort_entries s.entries ∙ sym found.total_is)
        ∙ found.bounded;
    count_bounded =
        ap (λ n. leb n max_workspace_entries) (length-sort_entries s.entries)
        ∙ le→leb (length s.entries) max_workspace_entries few;
    summary_is = summed;
  }

  scan_workspace_once-IsObserved :
      (root : String) (device : ℕ) (key : ObjectKey) (world : f.World) {o : Observation}
      → (scan_workspace_once f c u root device key world).0 ≡ ok o
      → IsObserved o
  unfolding scan_workspace_once
  scan_workspace_once-IsObserved root device key world {o} h =
      let (s, scanned, h) =
        resume-eq-ok _
          (scan_stack f c u root device max_rounds (unscanned key) (unscanned key).stack world) h in
      let (found, few) =
        scan_stack-IsFound root device max_rounds (unscanned key) (unscanned key).stack world
          (unscanned-IsFound key) (omega arith) scanned in
      let (summary, summed, h) = resume-eq-ok _ (tree_summary c (sort_entries s.entries), _) h in
      let made : Observation = record { entries = sort_entries s.entries; summary = summary } in
      let same : made ≡ o = ok-injective h in
      rw same at (found-IsObserved s summary found few summed)

  -- An observation that succeeds is of a tree whose paths are canonical, also apart under Windows, and
  -- in the order of their bytes; its total of bytes and its number of entries are in their bounds; and
  -- its summary is the one of its entries.
  pub observe_workspace-IsObserved :
      (parts : List String) (world : f.World) (o : Observation)
      → (observe_workspace f c u parts world).0 ≡ ok o
      → IsObserved o
  unfolding observe_workspace
  observe_workspace-IsObserved parts world o h =
      let (root, _, h) = resume-eq-ok _ (checked_workspace_root f parts world) h in
      let (s, _, h) = resume-eq-ok _ (f.lstat root _) h in
      let (first, _, h) =
        resume-eq-ok _ (scan_workspace_once f c u root s.device (object_key s) _) h in
      let (second, scanned, h) =
        resume-eq-ok _ (scan_workspace_once f c u root s.device (object_key s) _) h in
      let (_, _, h) =
        resume-eq-ok _ (require (same_observation f c u first second) evidence_error, _) h in
      rw (ok-injective h) at (scan_workspace_once-IsObserved root s.device (object_key s) _ scanned)
