-- ===== src/Portable/Laws.antt =====
-- What an accepted path looks like, and what follows for its alias key.
use Prim.Native.Char.{Char, code}
use Prim.Native.String.{len}
use text.Mathlib.TextEquality.{eq_iff, Char-path}
use benchhandoff.Prelude.{
  ◌↔◌, ℕ, ◌≡◌, refl, sym, ap, ◌∙◌, ◌≢◌, inl, inr, String, Bool, true, false, ◌||◌, List, [], ◌∷◌,
  arith, leb, eqb, any, All, ◌==◌, string_eq, Bool-cases, eqb_iff, beq_refl,
}
use benchhandoff.Errors.{ok, >>=-eq-ok, refuse-eq-ok, require-eq-ok, ok-injective}
use benchhandoff.Text.{extend_first, has_char, starts_with_char, split, join}
use benchhandoff.Portable.{
  Unicode, max_portable_path_bytes, posix_parts, posix_str, component_keys, normalize_relative_file,
}

-- A component that names an entry: not empty, and not the directory or its parent.
abbrev pub IsProper : String → Type 0
IsProper p = (p ≢ "") × (p ≢ ".") × (p ≢ "..")

split-eq-cons : (b : ℕ) (s : String) → (p : String) × (ps : List String) × (split b s ≡ p ∷ ps)
unfolding split
split-eq-cons b String.[] = ("", [], refl)
split-eq-cons b (String.◌∷◌ c s) = elim (Bool-cases (eqb b (code c))) [
  | inl same ↦ ("", split b s, rw same)
  | inr other ↦ let (p, ps, e) = split-eq-cons b s in (String.◌∷◌ c p, ps, rw (other, e))
]

join-extend_first :
    (c : Char) (ps : List String) → join "/" (extend_first c ps) ≡ String.◌∷◌ c (join "/" ps)
unfolding join
join-extend_first c [] = refl
join-extend_first c (p ∷ []) = refl
join-extend_first c (p ∷ q ∷ ps) = refl

-- A path is its components, joined.
pub join-split : (v : String) → join "/" (split b'/' v) ≡ v
unfolding join split
join-split String.[] = refl
join-split (String.◌∷◌ c s) = elim (Bool-cases (eqb b'/' (code c))) [
  | inl same ↦
      let (p, ps, e) = split-eq-cons b'/' s in
      let slash : ◌≡◌ {A = Char} "/" c = Char-path "/" c ((eqb_iff b'/' (code c)).0 same) in
      rw same (
        rw e (
          ap (λ d. String.◌∷◌ d (join "/" (p ∷ ps))) slash
          ∙ ap (String.◌∷◌ c) (ap (join "/") (sym e) ∙ join-split s)))
  | inr other ↦ rw other (join-extend_first c (split b'/' s) ∙ ap (String.◌∷◌ c) (join-split s))
]

posix_parts-eq : (ps : List String) → All IsProper ps → posix_parts ps ≡ ps
posix_parts-eq [] h = refl
posix_parts-eq (p ∷ ps) h = ground (arith, posix_parts-eq ps h.1, eq_iff p "", eq_iff p ".")

-- A text with only proper components does not begin with a separator.
not-starts_with_char : (v : String) → All IsProper (split b'/' v) → starts_with_char b'/' v ≡ false
unfolding split
not-starts_with_char String.[] h = refl
not-starts_with_char (String.◌∷◌ c s) h = elim (Bool-cases (eqb b'/' (code c))) [
  | inl same ↦ absurd ((rw same at h).0.0 refl)
  | inr other ↦ other
]

posix_str-eq : (v : String) → All IsProper (split b'/' v) → posix_str v ≡ v
unfolding posix_str
posix_str-eq v h =
    let (p, ps, e) = split-eq-cons b'/' v in
    rw (not-starts_with_char v h)
      (rw (posix_parts-eq (split b'/' v) h) (rw e (rw (← e) (join-split v))))

abbrev is_improper : String → Bool
is_improper part = part == "" || part == "." || part == ".."

All-IsProper : (ps : List String) → any is_improper ps ≡ false → All IsProper ps
All-IsProper [] h = tt
All-IsProper (p ∷ ps) h = ground (arith, All-IsProper ps, eq_iff p "", eq_iff p ".", eq_iff p "..")

any-is_improper : (ps : List String) → All IsProper ps → any is_improper ps ≡ false
any-is_improper [] h = refl
any-is_improper (p ∷ ps) h =
    ground (arith, any-is_improper ps h.1, eq_iff p "", eq_iff p ".", eq_iff p "..")

nonempty_text : (s : String) → (s == "") ≡ false → s ≢ ""
nonempty_text s h e = ground (arith, eq_iff s "")

module _ (u : Unicode) where
  -- The content of an accepted path.
  pub record IsPortable (value : String) (keys : List String) : Type 0 where
    pub not_empty : value ≢ ""
    pub no_nul : has_char 0 value ≡ false
    pub within_size : leb (len value) max_portable_path_bytes ≡ true
    pub no_backslash : has_char 0x5c value ≡ false
    pub no_colon : has_char b':' value ≡ false
    pub proper : All IsProper (split b'/' value)
    pub keyed : component_keys u (split b'/' value) ≡ ok keys

  pub normalize-IsPortable :
      (value result : String)
      → normalize_relative_file u value ≡ ok result
      → (keys : List String) × (result ≡ value) × IsPortable value keys
  unfolding normalize_relative_file
  normalize-IsPortable value result h =
      let (nonempty, h) = refuse-eq-ok _ _ _ h in
      let (nul, h) = refuse-eq-ok _ _ _ h in
      let (size, h) = require-eq-ok _ _ _ h in
      let (backslash, h) = refuse-eq-ok _ _ _ h in
      let (colon, h) = refuse-eq-ok _ _ _ h in
      let (proper, h) = refuse-eq-ok _ _ _ h in
      let (keys, keyed, h) = >>=-eq-ok (component_keys u (split b'/' value)) _ h in
      let (_, h) = refuse-eq-ok _ _ _ h in
      (
        keys,
        sym (ok-injective h),
        record {
          not_empty = λ e. nonempty_text value nonempty e;
          no_nul = nul;
          within_size = size;
          no_backslash = backslash;
          no_colon = colon;
          proper = All-IsProper _ proper;
          keyed = keyed;
        },
      )

  IsPortable-normalize :
      (value : String) (keys : List String)
      → IsPortable value keys
      → normalize_relative_file u value ≡ ok value
  unfolding normalize_relative_file
  IsPortable-normalize value keys p = ground (
    arith,
    eq_iff value "",
    any-is_improper (split b'/' value) p.proper,
    not-starts_with_char value p.proper,
    posix_str-eq value p.proper,
    beq_refl value,
  )

  -- A path is accepted exactly when it satisfies the description of a portable path, and it is
  -- returned unchanged: the check by pathlib refuses nothing that reaches it.
  pub normalize_iff :
      (value result : String)
      → (normalize_relative_file u value ≡ ok result)
        ↔ ((keys : List String) × (result ≡ value) × IsPortable value keys)
  normalize_iff value result = (
    normalize-IsPortable value result,
    λ (keys, same, p). IsPortable-normalize value keys p ∙ sym (ap ok same),
  )

  -- An accepted path is the join of its components, each of which names an entry and has an alias
  -- key of its own, and it is not absolute.
  pub normalize_components :
      (value result : String)
      → normalize_relative_file u value ≡ ok result
      → (join "/" (split b'/' result) ≡ value)
        × All IsProper (split b'/' result)
        × (starts_with_char b'/' result ≡ false)
  normalize_components value result h =
      let (keys, same, p) = normalize-IsPortable value result h in
      rw same (join-split value, p.proper, not-starts_with_char value p.proper)
