-- ===== src/Workspace/Sorted.antt =====
-- The canonical order of entries: `sorted` puts them in the order of the bytes of their paths.
use benchhandoff.Prelude.{
  ℕ, ◌+◌, ◌≡◌, refl, sym, ap, ap₂, ◌∙◌, inl, inr, String, Bool, true, false, ◌&&◌, ◌||◌, contains,
  length, List, [], ◌∷◌, ◌==◌, string_eq, arith, Bool-cases, &&-parts,
}
use benchhandoff.Text.{utf8}
use benchhandoff.Workspace.{
  Entry, bytes_leb, size_of, paths_of, total_bytes, in_order, insert_entry, sort_entries,
  kinds_match,
}
use benchhandoff.Workspace.Manifest.{same_entries}
use benchhandoff.Workspace.Trees.{kinds_match_sound}

-- Neighbours are in order.
abbrev pub is_sorted : List Entry → Bool
is_sorted [] = true
is_sorted (e ∷ []) = true
is_sorted (e ∷ f ∷ es) = in_order e f && is_sorted (f ∷ es)

bytes_leb_total : (xs ys : List ℕ) → bytes_leb xs ys ≡ false → bytes_leb ys xs ≡ true
bytes_leb_total [] ys h = absurd (ground (arith, h))
bytes_leb_total (x ∷ xs) [] h = refl
bytes_leb_total (x ∷ xs) (y ∷ ys) h = ground (arith, bytes_leb_total xs ys)

in_order_total : (e f : Entry) → in_order e f ≡ false → in_order f e ≡ true
unfolding in_order
in_order_total e f h = bytes_leb_total (utf8 e.path) (utf8 f.path) h

-- An entry that stands behind another goes on standing behind it.
insert_behind :
    (f e : Entry) (es : List Entry)
    → in_order f e ≡ true
    → is_sorted (f ∷ es) ≡ true
    → is_sorted (f ∷ insert_entry e es) ≡ true
unfolding insert_entry
insert_behind f e [] h sorted = rw h refl
insert_behind f e (g ∷ es) h sorted =
    let (first, rest) = &&-parts (in_order f g) (is_sorted (g ∷ es)) sorted in
    elim (Bool-cases (in_order e g)) [
      | inl before ↦ rw (before, h) (rw before rest)
      | inr behind ↦ rw (behind, first) (insert_behind g e es (in_order_total e g behind) rest)
    ]

insert_entry-is_sorted :
    (e : Entry) (es : List Entry) → is_sorted es ≡ true → is_sorted (insert_entry e es) ≡ true
unfolding insert_entry
insert_entry-is_sorted e [] sorted = refl
insert_entry-is_sorted e (f ∷ es) sorted = elim (Bool-cases (in_order e f)) [
  | inl before ↦ rw before (rw before sorted)
  | inr behind ↦ rw behind (insert_behind f e es (in_order_total e f behind) sorted)
]

pub sort_entries-is_sorted : (es : List Entry) → is_sorted (sort_entries es) ≡ true
unfolding sort_entries
sort_entries-is_sorted [] = refl
sort_entries-is_sorted (e ∷ es) =
    insert_entry-is_sorted e (sort_entries es) (sort_entries-is_sorted es)

pub same_entries_sound : (es fs : List Entry) → same_entries es fs ≡ true → es ≡ fs
same_entries_sound [] [] h = refl
same_entries_sound (e ∷ es) (f ∷ fs) h =
    let (head, tail) =
      &&-parts (e.path == f.path && kinds_match e.kind f.kind) (same_entries es fs) h in
    let (paths, kinds) = &&-parts (e.path == f.path) (kinds_match e.kind f.kind) head in
    ap₂ ◌∷◌
      (ap₂ (λ path kind. record { path = path; kind = kind })
        ((string_eq.same_iff e.path f.path).0 paths) (kinds_match_sound e.kind f.kind kinds))
      (same_entries_sound es fs tail)
same_entries_sound [] (f ∷ fs) h = cc
same_entries_sound (e ∷ es) [] h = cc

-- Sorting keeps what it sorts.
contains-insert_entry :
    (e : Entry) (es : List Entry) (path : String)
    → contains (paths_of (insert_entry e es)) path ≡ (path == e.path || contains (paths_of es) path)
unfolding insert_entry
contains-insert_entry e [] path = refl
contains-insert_entry e (f ∷ es) path = elim (Bool-cases (in_order e f)) [
  | inl before ↦ rw before refl
  | inr behind ↦ rw behind (ground (arith, contains-insert_entry e es path))
]

pub contains-sort_entries :
    (es : List Entry) (path : String)
    → contains (paths_of (sort_entries es)) path ≡ contains (paths_of es) path
unfolding sort_entries
contains-sort_entries [] path = refl
contains-sort_entries (e ∷ es) path =
    contains-insert_entry e (sort_entries es) path
    ∙ ap (λ b. path == e.path || b) (contains-sort_entries es path)

-- A sum over entries.
abbrev sum_of : (Entry → ℕ) → List Entry → ℕ
sum_of f [] = 0
sum_of f (e ∷ es) = f e + sum_of f es

sum_of-insert_entry :
    (f : Entry → ℕ) (e : Entry) (es : List Entry) → sum_of f (insert_entry e es) ≡ f e + sum_of f es
unfolding insert_entry
sum_of-insert_entry f e [] = refl
sum_of-insert_entry f e (g ∷ es) = elim (Bool-cases (in_order e g)) [
  | inl before ↦ rw before refl
  | inr behind ↦ rw behind (omega (arith, sum_of-insert_entry f e es))
]

sum_of-sort_entries : (f : Entry → ℕ) (es : List Entry) → sum_of f (sort_entries es) ≡ sum_of f es
unfolding sort_entries
sum_of-sort_entries f [] = refl
sum_of-sort_entries f (e ∷ es) =
    sum_of-insert_entry f e (sort_entries es) ∙ ap (λ n. f e + n) (sum_of-sort_entries f es)

total_bytes-sum_of : (es : List Entry) → total_bytes es ≡ sum_of (λ (e : Entry). size_of e.kind) es
total_bytes-sum_of [] = refl
total_bytes-sum_of (e ∷ es) = ap (λ n. size_of e.kind + n) (total_bytes-sum_of es)

length-sum_of : (es : List Entry) → length es ≡ sum_of (λ (e : Entry). 1) es
length-sum_of [] = refl
length-sum_of (e ∷ es) = omega (arith, length-sum_of es)

pub total_bytes-sort_entries : (es : List Entry) → total_bytes (sort_entries es) ≡ total_bytes es
total_bytes-sort_entries es =
    total_bytes-sum_of (sort_entries es)
    ∙ sum_of-sort_entries (λ (e : Entry). size_of e.kind) es
    ∙ sym (total_bytes-sum_of es)

pub length-sort_entries : (es : List Entry) → length (sort_entries es) ≡ length es
length-sort_entries es =
    length-sum_of (sort_entries es)
    ∙ sum_of-sort_entries (λ (e : Entry). 1) es
    ∙ sym (length-sum_of es)
