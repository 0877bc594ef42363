-- ===== src/Workspace/Steps.antt =====
-- What one round of a scan adds.
use benchhandoff.Prelude.{
  ℕ, zero, suc, ◌+◌, ◌-◌, ◌≤◌, ◌≡◌, refl, sym, ap, ◌∙◌, String, Bool, true, false, Option, some,
  List, [], ◌∷◌, ◌++◌, leb, eqb, length, arith,
}
use benchhandoff.Text.{utf8}
use benchhandoff.Errors.{ok, evidence_error, require, require_last, ok-injective}
use benchhandoff.Codec.{Codec, Bytes}
use benchhandoff.Plan.{Identity}
use benchhandoff.Portable.{Unicode}
use benchhandoff.Exec.{Exec, converted, finally, resume-eq-ok, converted-eq-ok, closing-eq-ok}
use benchhandoff.Workspace.{
  max_workspace_file_bytes, max_workspace_total_bytes, directory, file, Entry, size_of, bytes_leb,
  Aliases, canonical_path, claim_alias,
}
use benchhandoff.Workspace.Disk.{
  Mode, directory_mode, regular_mode, link_mode, other_mode, Stat, FileSystem, within, full_path,
  insert_name, name_placed, sort_names, min, block_bytes, object_key, as_evidence, read_blocks,
  read_on, bounded_file_identity, hash_open, or_close, status_of_open, is_unchanged,
}
use benchhandoff.Workspace.Scan.{Scan, scan_mode, scan_child}

length-placed :
    (b : Bool) (n m : String) (inserted ns : List String)
    → length inserted ≡ suc (length ns)
    → length (name_placed b n m inserted ns) ≡ suc (suc (length ns))
length-placed true n m inserted ns h = refl
length-placed false n m inserted ns h = ap suc h

length-insert_name : (n : String) (ns : List String) → length (insert_name n ns) ≡ suc (length ns)
unfolding insert_name
length-insert_name n [] = refl
length-insert_name n (m ∷ ns) =
    length-placed (bytes_leb (utf8 m) (utf8 n)) n m (insert_name n ns) ns (length-insert_name n ns)

pub length-sort_names : (ns : List String) → length (sort_names ns) ≡ length ns
unfolding sort_names
length-sort_names [] = refl
length-sort_names (n ∷ ns) = length-insert_name n (sort_names ns) ∙ ap suc (length-sort_names ns)

module _ (f : FileSystem) (c : Codec) (u : Unicode) (root : String) (root_device : ℕ) where
  read_on-bounded :
      (next : Bytes → Exec f.World Bytes)
      → ((seen content : Bytes) (world : f.World)
          → leb (length seen) max_workspace_file_bytes ≡ true
          → (next seen world).0 ≡ ok content
          → leb (length content) max_workspace_file_bytes ≡ true)
      → (seen block content : Bytes) (world : f.World)
      → leb (length seen) max_workspace_file_bytes ≡ true
      → (read_on f c root_device next seen block world).0 ≡ ok content
      → leb (length content) max_workspace_file_bytes ≡ true
  unfolding read_on
  read_on-bounded next bounded seen [] content world small h =
      ap (λ (b : Bytes). leb (length b) max_workspace_file_bytes) (sym (ok-injective h)) ∙ small
  read_on-bounded next bounded seen (byte ∷ block) content world small h =
      let (_, fits, h) =
        resume-eq-ok _
          (
            require (leb (length (seen ++ byte ∷ block)) max_workspace_file_bytes) evidence_error,
            world,
          )
          h in
      bounded (seen ++ byte ∷ block) content world
        (require_last (leb (length (seen ++ byte ∷ block)) max_workspace_file_bytes) evidence_error
          fits)
        h

  read_blocks-bounded :
      (rounds handle : ℕ) (seen content : Bytes) (world : f.World)
      → leb (length seen) max_workspace_file_bytes ≡ true
      → (read_blocks f c root_device rounds handle seen world).0 ≡ ok content
      → leb (length content) max_workspace_file_bytes ≡ true
  unfolding read_blocks
  read_blocks-bounded zero handle seen content world small h = cc
  read_blocks-bounded (suc rounds) handle seen content world small h =
      let (block, _, h) =
        resume-eq-ok _
          (f.read_block handle (min block_bytes (max_workspace_file_bytes - length seen + 1)) world)
          h in
      read_on-bounded (read_blocks f c root_device rounds handle)
        (read_blocks-bounded rounds handle) seen block content _ small h

  hash_open-bounded :
      (handle : ℕ) (world : f.World) {result : Bytes × Stat}
      → (hash_open f c root_device handle world).0 ≡ ok result
      → leb (length result.0) max_workspace_file_bytes ≡ true
  unfolding hash_open
  hash_open-bounded handle world {result} h =
      let (content, read, h) =
        resume-eq-ok _ (read_blocks f c root_device (suc max_workspace_file_bytes) handle [] world)
          h in
      let (final, _, h) = resume-eq-ok _ (f.fstat handle _) h in
      let same : content ≡ result.0 = ap (λ (r : Bytes × Stat). r.0) (ok-injective h) in
      ap (λ (b : Bytes). leb (length b) max_workspace_file_bytes) (sym same)
      ∙ read_blocks-bounded (suc max_workspace_file_bytes) handle [] content world refl read

  -- An entry that a name added.
  pub record IsAdded (s : Scan) (aliases : Aliases) (relative : String) (t : Scan) : Type 0 where
    pub entry : Entry
    pub path_is : entry.path ≡ relative
    pub sized : leb (size_of entry.kind) max_workspace_file_bytes ≡ true
    pub entries_are : t.entries ≡ s.entries ++ entry ∷ []
    pub aliases_are : t.aliases ≡ aliases
    pub total_is : t.total ≡ s.total + size_of entry.kind
    pub bounded :
        leb s.total max_workspace_total_bytes ≡ true → leb t.total max_workspace_total_bytes ≡ true
    pub stack_grows : length t.stack ≤ suc (length s.stack)

  bounded_file_identity-sized :
      (path : String) (listed : Stat) (world : f.World) {identity : Identity}
      → (bounded_file_identity f c root_device path listed world).0 ≡ ok identity
      → leb identity.size max_workspace_file_bytes ≡ true
  unfolding bounded_file_identity
  bounded_file_identity-sized path listed world {identity} h =
      let (handle, _, h) = resume-eq-ok _ (converted as_evidence (f.open_read path world)) h in
      let (opened, _, h) =
        resume-eq-ok _
          (or_close f c root_device handle (status_of_open f c root_device listed handle) _) h in
      let ((content, final), hashed, h) =
        resume-eq-ok _
          (converted as_evidence (finally (hash_open f c root_device handle) (f.close handle) _))
          h in
      let (current, _, h) = resume-eq-ok _ (converted as_evidence (f.lstat path _)) h in
      let (_, _, h) =
        resume-eq-ok _
          (require (is_unchanged f c root_device opened content final current) evidence_error, _)
          h in
      let (closed, _) =
        converted-eq-ok as_evidence (finally (hash_open f c root_device handle) (f.close handle) _)
          hashed in
      let same : length content ≡ identity.size = ap (λ (i : Identity). i.size) (ok-injective h) in
      ap (λ n. leb n max_workspace_file_bytes) (sym same)
      ∙ hash_open-bounded handle _ (closing-eq-ok _ (f.close handle _) closed)

  scan_mode-IsAdded :
      (s : Scan) (aliases : Aliases) (relative : String) (listed : Stat) (mode : Mode)
      (world : f.World) {t : Scan}
      → (scan_mode f c u root root_device s aliases relative listed mode world).0 ≡ ok t
      → IsAdded s aliases relative t
  unfolding scan_mode
  scan_mode-IsAdded s aliases relative listed link_mode world h = cc
  scan_mode-IsAdded s aliases relative listed other_mode world h = cc
  scan_mode-IsAdded s aliases relative listed directory_mode world {t} h =
      let e : Entry = record { path = relative; kind = directory } in
      let next : Scan = record {
        entries = s.entries ++ e ∷ [];
        aliases = aliases;
        total = s.total;
        stack = (some relative, object_key listed) ∷ s.stack;
      } in
      let facts : IsAdded s aliases relative next = record {
        entry = e;
        path_is = refl;
        sized = refl;
        entries_are = refl;
        aliases_are = refl;
        total_is = omega arith;
        bounded = λ h. h;
        stack_grows = omega arith;
      } in
      let same : next ≡ t = ok-injective h in rw same at facts
  scan_mode-IsAdded s aliases relative listed regular_mode world {t} h =
      let (_, _, h) = resume-eq-ok _ (require (eqb listed.links 1) evidence_error, world) h in
      let (_, _, h) =
        resume-eq-ok _ (require (leb listed.size max_workspace_file_bytes) evidence_error, _) h in
      let (identity, hashed, h) =
        resume-eq-ok _
          (bounded_file_identity f c root_device (full_path root (some relative)) listed _) h in
      let (_, within, h) =
        resume-eq-ok _
          (require (leb (s.total + identity.size) max_workspace_total_bytes) evidence_error, _) h in
      let e : Entry = record { path = relative; kind = file identity } in
      let next : Scan = record {
        entries = s.entries ++ e ∷ [];
        aliases = aliases;
        total = s.total + identity.size;
        stack = s.stack;
      } in
      let facts : IsAdded s aliases relative next = record {
        entry = e;
        path_is = refl;
        sized = bounded_file_identity-sized (full_path root (some relative)) listed _ hashed;
        entries_are = refl;
        aliases_are = refl;
        total_is = refl;
        bounded = λ _.
            require_last (leb (s.total + identity.size) max_workspace_total_bytes) evidence_error
              within;
        stack_grows = omega arith;
      } in
      let same : next ≡ t = ok-injective h in rw same at facts

  -- The canonical path of an entry, and its claim.
  pub scan_child-IsAdded :
      (place : Option String) (s : Scan) (name : String) (world : f.World) {t : Scan}
      → (scan_child f c u root root_device place s name world).0 ≡ ok t
      → (relative : String) × (aliases : Aliases) × (canonical_path u (within place name)
          ≡ ok relative)
        × (claim_alias u s.aliases relative ≡ ok aliases)
        × IsAdded s aliases relative t
  unfolding scan_child
  scan_child-IsAdded place s name world h =
      let (relative, canonical, h) =
        resume-eq-ok _ (canonical_path u (within place name), world) h in
      let (listed, _, h) =
        resume-eq-ok _ (converted as_evidence (f.lstat (full_path root (some relative)) world)) h in
      let (aliases, claimed, h) = resume-eq-ok _ (claim_alias u s.aliases relative, _) h in
      let (_, _, h) =
        resume-eq-ok _ (require (eqb listed.device root_device) evidence_error, _) h in
      (
        relative,
        aliases,
        canonical,
        claimed,
        scan_mode-IsAdded s aliases relative listed listed.mode _ h,
      )
