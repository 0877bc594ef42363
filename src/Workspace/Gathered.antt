-- ===== src/Workspace/Gathered.antt =====
-- What the loop over the entries of a manifest keeps true.
use benchhandoff.Prelude.{
  ℕ, suc, ◌+◌, ◌≡◌, refl, sym, ap, ◌∙◌, String, Bool, true, false, ◌&&◌, Option, none, some, List,
  [], ◌∷◌, ◌++◌, leb, length, length-append, string_eq, contains, distinct, arith, beq_sym,
}
use benchhandoff.Errors.{ok, evidence_error, >>=-eq-ok, require-eq-ok, refuse-eq-ok, ok-injective}
use benchhandoff.Text.{is_sha256}
use benchhandoff.Json.{
  Json, null, bool, int, float, str, arr, obj, pos, negsuc, Items, nil, cons, Fields, exact_keys,
  as_object,
}
use benchhandoff.Portable.{Unicode}
use benchhandoff.Workspace.{
  max_workspace_file_bytes, max_workspace_total_bytes, EntryKind, directory, file, Entry, size_of,
  paths_of, total_bytes, Aliases, claim_alias,
}
use benchhandoff.Workspace.Manifest.{
  get_field, names_directory, check_kind, digest_of, file_size_of, entry_keys, Gathered,
  nothing_gathered, path_of, gather, gather_entry, gather_entries, count_items,
}
use benchhandoff.Workspace.Canonical.{IsCanonical, canonical_path-IsCanonical}
use benchhandoff.Workspace.Claims.{
  IsClaimed, nothing-IsClaimed, claim_alias-IsClaimed, contains-snoc,
}

-- The digest and the size of a file are in their bounds.
abbrev pub is_sized : EntryKind → Bool
is_sized directory = true
is_sized (file i) = is_sha256 i.sha256 && leb i.size max_workspace_file_bytes

abbrev pub all_sized : List Entry → Bool
all_sized [] = true
all_sized (e ∷ es) = is_sized e.kind && all_sized es

distinct-snoc :
    (es : List Entry) (e : Entry)
    → distinct (paths_of es) ≡ true
    → contains (paths_of es) e.path ≡ false
    → distinct (paths_of (es ++ e ∷ [])) ≡ true
distinct-snoc [] e d absent = refl
distinct-snoc (f ∷ es) e d absent =
    ground (arith, contains-snoc es e f.path, distinct-snoc es e, beq_sym f.path e.path)

all_sized-snoc :
    (es : List Entry) (e : Entry) → all_sized (es ++ e ∷ []) ≡ (all_sized es && is_sized e.kind)
all_sized-snoc [] e = ground arith
all_sized-snoc (f ∷ es) e = ground (arith, all_sized-snoc es e)

pub total_bytes-snoc :
    (es : List Entry) (e : Entry) → total_bytes (es ++ e ∷ []) ≡ total_bytes es + size_of e.kind
total_bytes-snoc [] e = omega arith
total_bytes-snoc (f ∷ es) e = omega (arith, total_bytes-snoc es e)

digest_of-eq-ok : (o : Option Json) (s : String) → digest_of o ≡ ok s → is_sha256 s ≡ true
unfolding digest_of
digest_of-eq-ok (some (str t)) s h =
    let (valid, h) = require-eq-ok (is_sha256 t) evidence_error _ h in
    ap is_sha256 (sym (ok-injective h)) ∙ valid
digest_of-eq-ok none s h = cc
digest_of-eq-ok (some null) s h = cc
digest_of-eq-ok (some (bool b)) s h = cc
digest_of-eq-ok (some (int n)) s h = cc
digest_of-eq-ok (some (float n)) s h = cc
digest_of-eq-ok (some (arr items)) s h = cc
digest_of-eq-ok (some (obj fields)) s h = cc

file_size_of-eq-ok :
    (o : Option Json) (n : ℕ) → file_size_of o ≡ ok n → leb n max_workspace_file_bytes ≡ true
unfolding file_size_of
file_size_of-eq-ok (some (int (pos m))) n h =
    let (small, h) = require-eq-ok (leb m max_workspace_file_bytes) evidence_error _ h in
    ap (λ k. leb k max_workspace_file_bytes) (sym (ok-injective h)) ∙ small
file_size_of-eq-ok (some (int (negsuc m))) n h = cc
file_size_of-eq-ok none n h = cc
file_size_of-eq-ok (some null) n h = cc
file_size_of-eq-ok (some (bool b)) n h = cc
file_size_of-eq-ok (some (str s)) n h = cc
file_size_of-eq-ok (some (float m)) n h = cc
file_size_of-eq-ok (some (arr items)) n h = cc
file_size_of-eq-ok (some (obj fields)) n h = cc

module _ (u : Unicode) where
  path_of-IsCanonical :
      (o : Option Json) (path : String) → path_of u o ≡ ok path → IsCanonical u path
  unfolding path_of
  path_of-IsCanonical (some (str s)) path h = (canonical_path-IsCanonical u s path h).1
  path_of-IsCanonical none path h = cc
  path_of-IsCanonical (some null) path h = cc
  path_of-IsCanonical (some (bool b)) path h = cc
  path_of-IsCanonical (some (int n)) path h = cc
  path_of-IsCanonical (some (float n)) path h = cc
  path_of-IsCanonical (some (arr items)) path h = cc
  path_of-IsCanonical (some (obj fields)) path h = cc

  pub record IsGathered (g : Gathered) : Type 0 where
    pub claimed : IsClaimed u g.entries g.aliases
    pub different : distinct (paths_of g.entries) ≡ true
    pub sized : all_sized g.entries ≡ true
    pub total_is : g.total ≡ total_bytes g.entries
    pub bounded : leb g.total max_workspace_total_bytes ≡ true

  pub nothing-IsGathered : IsGathered nothing_gathered
  nothing-IsGathered = record {
    claimed = nothing-IsClaimed u;
    different = refl;
    sized = refl;
    total_is = refl;
    bounded = refl;
  }

  -- One more entry of a valid kind, with its total.
  more-IsGathered :
      (g : Gathered) (aliases : Aliases) (e : Entry) (total : ℕ)
      → IsGathered g
      → IsCanonical u e.path
      → contains (paths_of g.entries) e.path ≡ false
      → claim_alias u g.aliases e.path ≡ ok aliases
      → is_sized e.kind ≡ true
      → total ≡ g.total + size_of e.kind
      → leb total max_workspace_total_bytes ≡ true
      → IsGathered (record { entries = g.entries ++ e ∷ []; aliases = aliases; total = total })
  more-IsGathered g aliases e total gathered canonical absent claimed sized sum small = record {
    claimed =
        claim_alias-IsClaimed u g.entries g.aliases aliases e gathered.claimed canonical claimed;
    different = distinct-snoc g.entries e gathered.different absent;
    sized = ground (arith, all_sized-snoc g.entries e, gathered.sized);
    total_is = omega (arith, sum, total_bytes-snoc g.entries e, gathered.total_is);
    bounded = small;
  }

  gather-IsGathered :
      (g after : Gathered) (aliases : Aliases) (path : String) (raw : Fields) (is_dir : Bool)
      → IsGathered g
      → IsCanonical u path
      → contains (paths_of g.entries) path ≡ false
      → claim_alias u g.aliases path ≡ ok aliases
      → gather u g aliases path raw is_dir ≡ ok after
      → IsGathered after × (length after.entries ≡ suc (length g.entries))
  unfolding gather
  gather-IsGathered g after aliases path raw true gathered canonical absent claimed h =
      let e : Entry = record { path = path; kind = directory } in
      (
        rw (ok-injective h) at (
            more-IsGathered g aliases e g.total gathered canonical absent claimed refl (omega arith)
              gathered.bounded),
        ap (λ (k : Gathered). length k.entries) (sym (ok-injective h))
            ∙ omega (arith, length-append g.entries (e ∷ [])),
      )
  gather-IsGathered g after aliases path raw false gathered canonical absent claimed h =
      let (sha256, valid, h) = >>=-eq-ok (digest_of (get_field raw "sha256")) _ h in
      let (size, small, h) = >>=-eq-ok (file_size_of (get_field raw "size")) _ h in
      let (within, h) =
        require-eq-ok (leb (g.total + size) max_workspace_total_bytes) evidence_error _ h in
      let e : Entry = record {
        path = path;
        kind = file (record { sha256 = sha256; size = size });
      } in
      let sized : is_sized e.kind ≡ true = ground (
        arith,
        digest_of-eq-ok (get_field raw "sha256") sha256 valid,
        file_size_of-eq-ok (get_field raw "size") size small,
      ) in
      (
        rw (ok-injective h) at (
            more-IsGathered g aliases e (g.total + size) gathered canonical absent claimed sized
              refl within),
        ap (λ (k : Gathered). length k.entries) (sym (ok-injective h))
            ∙ omega (arith, length-append g.entries (e ∷ [])),
      )

  gather_entry-IsGathered :
      (g after : Gathered) (raw_entry : Json)
      → IsGathered g
      → gather_entry u g raw_entry ≡ ok after
      → IsGathered after × (length after.entries ≡ suc (length g.entries))
  unfolding gather_entry
  gather_entry-IsGathered g after raw_entry gathered h =
      let (raw, _, h) = >>=-eq-ok (as_object raw_entry) _ h in
      let (_, _, h) =
        >>=-eq-ok (exact_keys raw (entry_keys (names_directory (get_field raw "kind"))) []) _ h in
      let (_, _, h) = >>=-eq-ok (check_kind (get_field raw "kind")) _ h in
      let (path, canonical, h) = >>=-eq-ok (path_of u (get_field raw "path")) _ h in
      let (absent, h) = refuse-eq-ok (contains (paths_of g.entries) path) evidence_error _ h in
      let (aliases, claimed, h) = >>=-eq-ok (claim_alias u g.aliases path) _ h in
      gather-IsGathered g after aliases path raw (names_directory (get_field raw "kind")) gathered
        (path_of-IsCanonical (get_field raw "path") path canonical) absent claimed h

  pub gather_entries-IsGathered :
      (g after : Gathered) (items : Items)
      → IsGathered g
      → gather_entries u g items ≡ ok after
      → IsGathered after × (length after.entries ≡ length g.entries + count_items items)
  unfolding gather_entries
  gather_entries-IsGathered g after nil gathered h = (
    rw (ok-injective h) at gathered,
    ap (λ (k : Gathered). length k.entries) (sym (ok-injective h)) ∙ omega arith,
  )
  gather_entries-IsGathered g after (cons raw_entry items) gathered h =
      let (next, first, h) = >>=-eq-ok (gather_entry u g raw_entry) _ h in
      let (gathered, one_more) = gather_entry-IsGathered g next raw_entry gathered first in
      let (all_gathered, many_more) = gather_entries-IsGathered next after items gathered h in
      (all_gathered, omega (arith, one_more, many_more))

  pub gather_all-IsGathered :
      (after : Gathered) (items : Items)
      → gather_entries u nothing_gathered items ≡ ok after
      → IsGathered after × (length after.entries ≡ count_items items)
  gather_all-IsGathered after items h =
      let (gathered, count) =
        gather_entries-IsGathered nothing_gathered after items nothing-IsGathered h in
      (gathered, omega (arith, count))
