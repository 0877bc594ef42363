-- ===== src/Controller/Short.antt =====
-- The digests, run ids and uids of a record are short.
use benchhandoff.Prelude.{
  ℕ, ◌+◌, ◌≡◌, refl, String, Bool, true, false, ◌&&◌, ◌||◌, List, [], ◌∷◌, eqb, arith, Bool-cases,
  inl, inr, is_nil,
}
use Prim.Native.Char.{Char, code}
use benchhandoff.Text.{all_chars, is_hex, text_length, split, extend_first, is_sha256, is_run_id}
use benchhandoff.Controller.{is_uid, uid_parts_valid}
use benchhandoff.Controller.Encoded.{is_plain, IsShort}

-- Texts whose characters are hexadecimal digits, or dashes between them.
abbrev is_uid_char : ℕ → Bool
is_uid_char c = is_hex c || eqb b'-' c

hex-is_plain : (s : String) → all_chars is_hex s ≡ true → all_chars is_plain s ≡ true
unfolding all_chars
hex-is_plain String.[] h = refl
hex-is_plain (String.◌∷◌ c s) h = ground (arith, hex-is_plain s)

pub is_sha256-IsShort : (s : String) → is_sha256 s ≡ true → IsShort s
unfolding is_sha256
is_sha256-IsShort s h = record { plain = hex-is_plain s (ground arith); few = ground arith }

pub is_run_id-IsShort : (s : String) → is_run_id s ≡ true → IsShort s
unfolding is_run_id
is_run_id-IsShort s h = record { plain = hex-is_plain s (ground arith); few = ground arith }

uid_chars-is_plain : (s : String) → all_chars is_uid_char s ≡ true → all_chars is_plain s ≡ true
unfolding all_chars
uid_chars-is_plain String.[] h = refl
uid_chars-is_plain (String.◌∷◌ c s) h = ground (arith, uid_chars-is_plain s)

-- The length of a text from its parts, each with one separator.
abbrev spread : List String → ℕ
spread [] = 0
spread (part ∷ parts) = text_length part + 1 + spread parts

abbrev all_hex : List String → Bool
all_hex [] = true
all_hex (part ∷ parts) = all_chars is_hex part && all_hex parts

spread-extend_first :
    (c : Char) (parts : List String)
    → is_nil parts ≡ false
    → spread (extend_first c parts) ≡ spread parts + 1
unfolding text_length
spread-extend_first c [] h = cc
spread-extend_first c (part ∷ parts) h = omega arith

is_nil-extend_first : (c : Char) (parts : List String) → is_nil (extend_first c parts) ≡ false
is_nil-extend_first c [] = refl
is_nil-extend_first c (part ∷ parts) = refl

is_nil-split : (s : String) → is_nil (split b'-' s) ≡ false
unfolding split
is_nil-split String.[] = refl
is_nil-split (String.◌∷◌ c s) = elim (Bool-cases (eqb b'-' (code c))) [
  | inl dash ↦ rw dash refl
  | inr other ↦ rw other (is_nil-extend_first c (split b'-' s))
]

spread-split : (s : String) → spread (split b'-' s) ≡ text_length s + 1
unfolding split text_length
spread-split String.[] = refl
spread-split (String.◌∷◌ c s) = elim (Bool-cases (eqb b'-' (code c))) [
  | inl dash ↦ rw dash (omega (arith, spread-split s))
  | inr other ↦
      rw other
        (omega (arith, spread-extend_first c (split b'-' s) (is_nil-split s), spread-split s))
]

all_hex-extend_first :
    (c : Char) (parts : List String)
    → all_hex (extend_first c parts) ≡ true
    → (is_hex (code c) ≡ true) × (all_hex parts ≡ true)
unfolding all_chars
all_hex-extend_first c [] h = (ground arith, refl)
all_hex-extend_first c (part ∷ parts) h = (ground arith, ground arith)

all_hex-split : (s : String) → all_hex (split b'-' s) ≡ true → all_chars is_uid_char s ≡ true
unfolding split all_chars
all_hex-split String.[] h = refl
all_hex-split (String.◌∷◌ c s) h = elim (Bool-cases (eqb b'-' (code c))) [
  | inl dash ↦ rw dash (let h = rw dash at h in ground (arith, all_hex-split s))
  | inr other ↦
      let (hex, rest) = all_hex-extend_first c (split b'-' s) (rw other at h) in
      rw (hex, all_hex-split s rest) refl
]

-- The parts of a uid.
uid_parts :
    (parts : List String)
    → uid_parts_valid parts ≡ true
    → (all_hex parts ≡ true) × (spread parts ≡ 37)
uid_parts (a ∷ b ∷ c ∷ d ∷ e ∷ []) h = (ground arith, ground arith)
uid_parts (a ∷ b ∷ c ∷ d ∷ e ∷ f ∷ rest) h = cc
uid_parts (a ∷ b ∷ c ∷ d ∷ []) h = cc
uid_parts (a ∷ b ∷ c ∷ []) h = cc
uid_parts (a ∷ b ∷ []) h = cc
uid_parts (a ∷ []) h = cc
uid_parts [] h = cc

pub is_uid-IsShort : (s : String) → is_uid s ≡ true → IsShort s
unfolding is_uid
is_uid-IsShort s h =
    let (hex, wide) = uid_parts (split b'-' s) h in
    record {
      plain = uid_chars-is_plain s (all_hex-split s hex);
      few = omega (arith, spread-split s);
    }
