-- ===== src/Workspace/Trees.antt =====
-- What trees hold at a path, as dicts from paths to entries.
use benchhandoff.Prelude.{
  ℕ, ◌≡◌, refl, sym, ap, ◌∙◌, inl, inr, String, Bool, true, false, not, ◌&&◌, ◌||◌, Option, none,
  some, List, [], ◌∷◌, eqb, ◌==◌, string_eq, beq_refl, beq_sym, &&-parts, ap₂, eqb_iff, contains,
  all, arith, Bool-cases, distinct,
}
use benchhandoff.Workspace.{EntryKind, directory, file, Entry, kinds_match, paths_of}
use benchhandoff.Workspace.Binding.{
  Tree, kind_if, kind_at, is_there, has_path, put, paths_where, keep_if, is_kind, entries_agree,
}

pub kinds_match_refl : (k : EntryKind) → kinds_match k k ≡ true
kinds_match_refl directory = refl
kinds_match_refl (file i) = ground (arith, beq_refl {A = String} i.sha256)

pub kinds_match_sound : (j k : EntryKind) → kinds_match j k ≡ true → j ≡ k
kinds_match_sound directory directory h = refl
kinds_match_sound (file i) (file j) h =
    let (text, number) = &&-parts (i.sha256 == j.sha256) (eqb i.size j.size) h in
    let build : String → ℕ → EntryKind =
      λ sha256 size. file (record { sha256 = sha256; size = size }) in
    ap₂ build ((string_eq.same_iff i.sha256 j.sha256).0 text) ((eqb_iff i.size j.size).0 number)
kinds_match_sound directory (file j) h = cc
kinds_match_sound (file i) directory h = cc

other_path : (a b p : String) → (a == b) ≡ true → (b == p) ≡ false → (a == p) ≡ false
other_path a b p h k = ground (arith, string_eq.same_iff a b)

one_path : (a b p : String) → (a == b) ≡ false → (b == p) ≡ true → (a == p) ≡ false
one_path a b p h k = ground (arith, string_eq.same_iff b p)

-- A dict after an assignment.
pub kind_at-put :
    (e : Entry) (t : Tree) (p : String)
    → kind_at (put e t) p ≡ kind_if (e.path == p) e.kind (kind_at t p)
unfolding kind_at put
kind_at-put e [] p = refl
kind_at-put e (f ∷ es) p = elim (Bool-cases (f.path == e.path)) [
  | inl same ↦ elim (Bool-cases (e.path == p)) [
    | inl here ↦ rw (same, here) refl
    | inr there ↦ rw (same, there, other_path f.path e.path p same there) refl
  ]
  | inr other ↦ elim (Bool-cases (e.path == p)) [
    | inl here ↦ rw (other, kind_at-put e es p, here, one_path f.path e.path p other here) refl
    | inr there ↦ rw (other, kind_at-put e es p, there) refl
  ]
]

all-keep_if :
    (q : String → Bool) (b : Bool) (path : String) (paths : List String)
    → all q (keep_if b path paths) ≡ ((not b || q path) && all q paths)
all-keep_if q true path paths = refl
all-keep_if q false path paths = refl

there-kind_if :
    (b : Bool) (k : EntryKind) (o : Option EntryKind)
    → is_there o ≡ true
    → is_there (kind_if b k o) ≡ true
there-kind_if true k o h = refl
there-kind_if false k o h = h

-- The paths that pass a test, under a second test.
pub all-paths_where :
    (q p : String → Bool) (t : Tree) (path : String)
    → all q (paths_where p t) ≡ true
    → has_path t path ≡ true
    → p path ≡ true
    → q path ≡ true
unfolding paths_where kind_at
all-paths_where q p [] path h there passes = cc
all-paths_where q p (e ∷ es) path h there passes =
    let kept = sym (all-keep_if q (p e.path) e.path (paths_where p es)) ∙ h in
    let (head, tail) = &&-parts (not (p e.path) || q e.path) (all q (paths_where p es)) kept in
    elim (Bool-cases (e.path == path)) [
      | inl same ↦
          let here = (string_eq.same_iff e.path path).0 same in
          sym (ap q here) ∙ ground (arith, ap p here)
      | inr other ↦ all-paths_where q p es path tail (rw other at there) passes
    ]

pub paths_where-all :
    (q p : String → Bool) (t : Tree)
    → ((path : String) → has_path t path ≡ true → p path ≡ true → q path ≡ true)
    → all q (paths_where p t) ≡ true
unfolding paths_where kind_at
paths_where-all q p [] h = refl
paths_where-all q p (e ∷ es) h =
    let first : (p e.path ≡ true → q e.path ≡ true) =
      h e.path (rw (beq_refl {A = String} e.path) refl) in
    let rest =
      paths_where-all q p es
        (λ path there. h path (there-kind_if (e.path == path) e.kind (kind_at es path) there)) in
    all-keep_if q (p e.path) e.path (paths_where p es) ∙ ground (arith, first)

is_kind_sound : (k : EntryKind) (o : Option EntryKind) → is_kind k o ≡ true → o ≡ some k
is_kind_sound k none h = cc
is_kind_sound k (some j) h = ap some (kinds_match_sound j k h)

pub contains-paths_of : (t : Tree) (path : String) → contains (paths_of t) path ≡ has_path t path
unfolding kind_at
contains-paths_of [] path = refl
contains-paths_of (e ∷ es) path = rw (beq_sym path e.path) (elim (Bool-cases (e.path == path)) [
  | inl same ↦ rw same refl
  | inr other ↦ rw other (contains-paths_of es path)
])

-- An entry has a path that no later entry has.
distinct_path :
    (t : Tree) (first path : String) (k : EntryKind)
    → not (contains (paths_of t) first) ≡ true
    → kind_at t path ≡ some k
    → (first == path) ≡ false
distinct_path t first path k absent at = elim (Bool-cases (first == path)) [
  | inl same ↦
      let here = (string_eq.same_iff first path).0 same in
      absurd (ground (arith, contains-paths_of t first, ap is_there (ap (kind_at t) here ∙ at)))
  | inr other ↦ other
]

-- The entries of a tree, each of them expected of another.
pub entries_agree-kind_at :
    (t actual : Tree) (path : String) (k : EntryKind)
    → entries_agree t actual ≡ true
    → kind_at t path ≡ some k
    → kind_at actual path ≡ some k
unfolding entries_agree kind_at
entries_agree-kind_at [] actual path k h at = cc
entries_agree-kind_at (e ∷ es) actual path k h at =
    let (head, tail) =
      &&-parts (is_kind e.kind (kind_at actual e.path)) (entries_agree es actual) h in
    elim (Bool-cases (e.path == path)) [
      | inl same ↦
          let here = (string_eq.same_iff e.path path).0 same in
          sym (ap (kind_at actual) here)
          ∙ is_kind_sound e.kind (kind_at actual e.path) head
          ∙ rw same at at
      | inr other ↦ entries_agree-kind_at es actual path k tail (rw other at at)
    ]

pub kind_at-entries_agree :
    (t actual : Tree)
    → distinct (paths_of t) ≡ true
    → ((path : String) (k : EntryKind) → kind_at t path ≡ some k → kind_at actual path ≡ some k)
    → entries_agree t actual ≡ true
unfolding entries_agree kind_at
kind_at-entries_agree [] actual d h = refl
kind_at-entries_agree (e ∷ es) actual d h =
    let (absent, d) = &&-parts (not (contains (paths_of es) e.path)) (distinct (paths_of es)) d in
    let head = h e.path e.kind (rw (beq_refl {A = String} e.path) refl) in
    let rest =
      kind_at-entries_agree es actual d
        (λ path k at. h path k (rw (distinct_path es e.path path k absent at) at)) in
    rw (head, kinds_match_refl e.kind) rest
