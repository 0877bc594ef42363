-- ===== src/Workspace/Rounds.antt =====
-- The loops of a scan come to an end: the limits on entries and on bytes bound their rounds.
use benchhandoff.Prelude.{
  ℕ, zero, suc, ◌+◌, ◌-◌, ◌≤◌, ◌≡◌, refl, sym, ap, ◌∙◌, String, Option, List, [], ◌∷◌, leb, length,
  length-append, leb→le, arith,
}
use benchhandoff.Errors.{Result, ok, err, evidence_error, require, require_last, ok-injective}
use benchhandoff.Codec.{Codec}
use benchhandoff.Portable.{Unicode}
use benchhandoff.Exec.{Exec, resume_with, converted, resume-eq-ok}
use benchhandoff.Workspace.{max_workspace_entries, Entry}
use benchhandoff.Workspace.Steps.{scan_child-IsAdded, length-sort_names}
use benchhandoff.Workspace.Disk.{
  ObjectKey, same_key, FileSystem, full_path, as_evidence, checked_directory_metadata,
}
use benchhandoff.Workspace.Scan.{
  Scan, scan_child, scan_children, list_directory, scan_directory, scan_stack, unscanned,
  max_rounds,
}

module _ {S A B : Type 0} where
  -- Two chains that go on alike from what the first part gave.
  resume-agree :
      (f g : A → Exec S B) (m : Result A × S)
      → ((a : A) → m.0 ≡ ok a → f a m.1 ≡ g a m.1)
      → resume_with f m ≡ resume_with g m
  resume-agree f g (ok a, s) h = h a refl
  resume-agree f g (err e, s) h = refl

abbrev pub remaining : List Entry → ℕ
remaining entries = max_workspace_entries - length entries

module _ (f : FileSystem) (c : Codec) (u : Unicode) (root : String) (root_device : ℕ) where
  pub scan_children-grows :
      (place : Option String) (s : Scan) (names : List String) (world : f.World) {t : Scan}
      → (scan_children f c u root root_device place s names world).0 ≡ ok t
      → (length t.entries ≡ length s.entries + length names)
        × (length t.stack ≤ length s.stack + length names)
  unfolding scan_children
  scan_children-grows place s [] world {t} h =
      let same : s ≡ t = ok-injective h in
      (
        ap (λ (k : Scan). length k.entries) (sym same) ∙ omega arith,
        omega (arith, ap (λ (k : Scan). length k.stack) same),
      )
  scan_children-grows place s (name ∷ names) world h =
      let (next, added, h) =
        resume-eq-ok _ (scan_child f c u root root_device place s name world) h in
      let (_, _, _, _, one) = scan_child-IsAdded f c u root root_device place s name world added in
      let (entries, stack) = scan_children-grows place next names _ h in
      let longer = ap length one.entries_are ∙ length-append s.entries (one.entry ∷ []) in
      (omega (arith, entries, longer), omega (arith, stack, one.stack_grows))

  pub list_directory-bounded :
      (s : Scan) (path : String) (expected : ObjectKey) (world : f.World) {names : List String}
      → (list_directory f c u root root_device s path expected world).0 ≡ ok names
      → length names ≤ remaining s.entries
  unfolding list_directory
  list_directory-bounded s path expected world h =
      let (before, _, h) =
        resume-eq-ok _ (checked_directory_metadata f c root_device path world) h in
      let (_, _, h) = resume-eq-ok _ (require (same_key before expected) evidence_error, _) h in
      let (iterator, _, h) = resume-eq-ok _ (converted as_evidence (f.open_directory path _)) h in
      let (opened, _, h) = resume-eq-ok _ (checked_directory_metadata f c root_device path _) h in
      let (_, _, h) = resume-eq-ok _ (require (same_key opened expected) evidence_error, _) h in
      let (found, _, h) = resume-eq-ok _ (converted as_evidence (f.names iterator _)) h in
      let (_, few, h) =
        resume-eq-ok _ (require (leb (length found) (remaining s.entries)) evidence_error, _) h in
      let (after, _, h) = resume-eq-ok _ (checked_directory_metadata f c root_device path _) h in
      let (_, _, h) = resume-eq-ok _ (require (same_key after expected) evidence_error, _) h in
      let count = ap length (sym (ok-injective h)) ∙ length-sort_names found in
      let within =
        leb→le (length found) (remaining s.entries)
          (require_last (leb (length found) (remaining s.entries)) evidence_error few) in
      omega (arith, count, within)

  -- A round leaves fewer entries to find, by as many as it puts on the stack.
  scan_directory-measure :
      (place : Option String) (key : ObjectKey) (s : Scan) (world : f.World) {t : Scan}
      → (scan_directory f c u root root_device place key s world).0 ≡ ok t
      → remaining t.entries + length t.stack ≤ remaining s.entries + length s.stack
  unfolding scan_directory
  scan_directory-measure place key s world h =
      let (names, listed, h) =
        resume-eq-ok _ (list_directory f c u root root_device s (full_path root place) key world)
          h in
      let few = list_directory-bounded s (full_path root place) key world listed in
      let (entries, stack) = scan_children-grows place s names _ h in
      omega (arith, few, entries, stack)

  -- Rounds for all that is on the stack and all that may still be found are enough.
  scan_stack-enough :
      (m n : ℕ) (s : Scan) (stack : List (Option String × ObjectKey)) (world : f.World)
      → remaining s.entries + length stack ≤ m
      → remaining s.entries + length stack ≤ n
      → scan_stack f c u root root_device m s stack world
        ≡ scan_stack f c u root root_device n s stack world
  unfolding scan_stack
  scan_stack-enough zero zero s stack world enough_m enough_n = refl
  scan_stack-enough zero (suc n) s [] world enough_m enough_n = refl
  scan_stack-enough (suc m) zero s [] world enough_m enough_n = refl
  scan_stack-enough (suc m) (suc n) s [] world enough_m enough_n = refl
  scan_stack-enough zero (suc n) s (next ∷ stack) world enough_m enough_n =
      absurd (omega (arith, enough_m))
  scan_stack-enough (suc m) zero s (next ∷ stack) world enough_m enough_n =
      absurd (omega (arith, enough_n))
  scan_stack-enough (suc m) (suc n) s ((place, key) ∷ stack) world enough_m enough_n =
      let popped : Scan = record s { stack = stack } in
      resume-agree (λ (t : Scan). scan_stack f c u root root_device m t t.stack)
        (λ (t : Scan). scan_stack f c u root root_device n t t.stack)
        (scan_directory f c u root root_device place key popped world)
        (λ t found.
          let fewer = scan_directory-measure place key popped world found in
          scan_stack-enough m n t t.stack _ (omega (arith, fewer, enough_m))
            (omega (arith, fewer, enough_n)))

  -- The loop over the directories of a workspace ends within `max_rounds` rounds: it comes to the same
  -- end with any larger number of them.
  pub scan_stack-rounds :
      (rounds : ℕ) (root_key : ObjectKey) (world : f.World)
      → max_rounds ≤ rounds
      → scan_stack f c u root root_device rounds
          (unscanned root_key)
          (unscanned root_key).stack
          world
        ≡ scan_stack f c u root root_device max_rounds
            (unscanned root_key)
            (unscanned root_key).stack
            world
  scan_stack-rounds rounds root_key world enough =
      scan_stack-enough rounds max_rounds (unscanned root_key) (unscanned root_key).stack world
        (omega (arith, enough)) (omega arith)
